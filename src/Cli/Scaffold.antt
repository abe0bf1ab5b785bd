-- ===== src/Cli/Scaffold.antt =====
-- internal/scaffold/templates.go. `strings.ToLower` is outside.
use crawlwall.Base.{String, ◌||◌, ◌==◌, if◌then◌else◌, Result, ok, err}
use crawlwall.Base.Text.{trim_space}

abbrev pub caddyfile_text : String
caddyfile_text =
    "{\n\torder crawlwall before reverse_proxy\n}\n\n:8080 {\n\tcrawlwall {\n\t\tpolicy ./crawlwall.yaml\n\t\tledger sqlite://./crawlwall.db\n\t\tfail_mode block\n\t}\n\n\treverse_proxy localhost:3000\n}\n"

abbrev pub gitignore_text : String
gitignore_text =
    "# Secrets\n*.key\n*.pem\n\n# Local databases and exports\n*.db\n*.sqlite\n*.sqlite3\n*.jsonl\n\n# Local logs\n*.log\n\n# Local Caddy binaries\n/caddy\n/caddy.exe\n/caddy-*\n/caddy-*.exe\n\n# Local Go build outputs\n/crawlwall\n/crawlwall.exe\n*.test\ncoverage.out\n"

abbrev pub minimal_policy : String
minimal_policy =
    "version: crawlwall.io/v1\n\nsite:\n  id: local-dev\n  host: localhost\n  mode: enforce\n\nruntime:\n  fail_mode: block\n  default_action:\n    type: allow\n\nledger:\n  enabled: true\n\nreceipts:\n  enabled: false\n\nbots:\n  - id: googlebot\n    name: Googlebot\n    class: search\n    match:\n      user_agents:\n        - \"Googlebot\"\n    verify:\n      type: reverse_dns\n      allowed_suffixes:\n        - \".googlebot.com\"\n        - \".google.com\"\n\n  - id: gptbot\n    name: GPTBot\n    class: ai_training\n    match:\n      user_agents:\n        - \"GPTBot\"\n    verify:\n      type: ip_ranges\n      sources:\n        - \"https://openai.com/gptbot.json\"\n      refresh: 1h\n      stale_action: fail_closed\n      max_stale: 0s\n\n  - id: unknown\n    name: Unknown\n    class: unknown\n    match:\n      default: true\n    verify:\n      type: none\n\nsets:\n  protected_paths:\n    - \"/archive\"\n    - \"/datasets\"\n    - \"/reports\"\n\nrules:\n  - id: block_spoofed_known_bots\n    priority: 10\n    when: >\n      bot.claimed && !bot.verified\n    action:\n      type: block\n      status: 403\n      reason: spoofed_bot\n\n  - id: allow_verified_search\n    priority: 100\n    when: >\n      bot.verified && bot.class == \"search\"\n    action:\n      type: allow\n\n  - id: rate_limit_verified_training\n    priority: 300\n    when: >\n      bot.verified && bot.class == \"ai_training\"\n    action:\n      type: rate_limit\n      limit:\n        key: \"bot.id\"\n        rpm: 120\n\n  - id: block_unknown_protected_paths\n    priority: 900\n    when: >\n      bot.class == \"unknown\" &&\n      sets.protected_paths.exists(p, request.path.startsWith(p))\n    action:\n      type: block\n      status: 403\n      reason: unknown_crawler_protected_path\n"

abbrev pub full_policy : String
full_policy =
    "version: crawlwall.io/v1\n\nsite:\n  id: local-dev\n  host: localhost\n  mode: enforce\n\nruntime:\n  fail_mode: block\n  default_action:\n    type: allow\n\nledger:\n  enabled: true\n\nreceipts:\n  enabled: true\n  signer:\n    type: ed25519\n    key_file: ./crawlwall.key\n\n# Serve /robots.txt derived from the rules below, so the advisory layer cannot\n# drift out of sync with what is actually enforced.\nrobots:\n  serve: true\n\nbots:\n  - id: googlebot\n    name: Googlebot\n    class: search\n    match:\n      user_agents:\n        - \"Googlebot\"\n    verify:\n      type: reverse_dns\n      allowed_suffixes:\n        - \".googlebot.com\"\n        - \".google.com\"\n\n  - id: gptbot\n    name: GPTBot\n    class: ai_training\n    match:\n      user_agents:\n        - \"GPTBot\"\n    verify:\n      type: ip_ranges\n      sources:\n        - \"https://openai.com/gptbot.json\"\n      refresh: 1h\n      stale_action: fail_closed\n      max_stale: 0s\n\n  - id: unknown\n    name: Unknown\n    class: unknown\n    match:\n      default: true\n    verify:\n      type: none\n\nsets:\n  protected_paths:\n    - \"/archive\"\n    - \"/datasets\"\n    - \"/reports\"\n\n  known_ai_training:\n    - \"gptbot\"\n    - \"claudebot\"\n\nrules:\n  - id: block_spoofed_known_bots\n    priority: 10\n    when: >\n      bot.claimed && !bot.verified\n    action:\n      type: block\n      status: 403\n      reason: spoofed_bot\n    audit:\n      receipt: true\n      tags: [\"spoofed\", \"security\"]\n\n  - id: allow_verified_search\n    priority: 100\n    when: >\n      bot.verified && bot.class == \"search\"\n    action:\n      type: allow\n    audit:\n      receipt: false\n      tags: [\"search\"]\n\n  - id: meter_training_on_protected_paths\n    priority: 200\n    when: >\n      bot.verified &&\n      bot.class == \"ai_training\" &&\n      sets.protected_paths.exists(p, request.path.startsWith(p))\n    action:\n      type: allow_metered\n      price:\n        amount: 0.002\n        currency: USD\n        unit: request\n    audit:\n      receipt: true\n      tags: [\"ai_training\", \"metered\"]\n\n  - id: rate_limit_ai_training_elsewhere\n    priority: 300\n    when: >\n      bot.verified && bot.class == \"ai_training\"\n    action:\n      type: rate_limit\n      limit:\n        key: \"bot.id\"\n        rpm: 120\n    audit:\n      receipt: true\n      tags: [\"ai_training\"]\n\n  - id: block_unknown_protected_paths\n    priority: 900\n    when: >\n      bot.class == \"unknown\" &&\n      sets.protected_paths.exists(p, request.path.startsWith(p))\n    action:\n      type: block\n      status: 403\n      reason: unknown_crawler_protected_path\n    audit:\n      receipt: true\n      tags: [\"unknown\", \"blocked\"]\n"

-- `Policy`
unfoldable pub scaffold_policy : (String → String) → String → Result String String
unfolding trim_space
scaffold_policy to_lower profile =
    let wanted = to_lower (trim_space profile) in
    if wanted == "" || wanted == "minimal"
    then ok minimal_policy
    else if wanted == "full"
    then ok full_policy
    else err profile

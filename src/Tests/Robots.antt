-- ===== src/Tests/Robots.antt =====
-- Runs of the generator of robots.txt.
use crawlwall.Base.{
  ℕ, zero, suc, ◌*◌, ◌+◌, ◌≤◌, ◌<◌, String, ◌≡◌, refl, Bool, true, false, not, ◌&&◌, ◌↔◌, none,
  some, List, [], ◌∷◌, ◌==◌, ok, nat_eq, if◌then◌else◌, In, here, there,
}
use crawlwall.Base.Int.{pos}
use crawlwall.Base.Text.{has_prefix, byte_length}
use crawlwall.Base.Dict.{Dict}
use crawlwall.Base.Sort.{IsSorted}
use crawlwall.Config.{text, bool, array, item, no_items, field, no_fields, action_block, Config}
use crawlwall.Policy.{Program, Cel, Decision, CompiledRule}
use crawlwall.Policy.Input.{resolve_path}
use crawlwall.Policy.Engine.{Engine, decision_of}
use crawlwall.Robots.{Group, Formats}
use crawlwall.Robots.Paths.{candidate_paths}
use crawlwall.Robots.Paths.Candidates.{candidate_paths-nonempty}
use crawlwall.Robots.Lines.{is_blocked, directives}
use crawlwall.Robots.Lines.Crawler.{robots_blocks}
use crawlwall.Robots.Lines.LongestMatch.{directives-longest_match}
use crawlwall.Robots.Build.{agents_for, implied_delay, probe, build_group}
use crawlwall.Robots.Build.Probed.{build_group-agrees}
use crawlwall.Robots.Merge.{merge_groups}
use crawlwall.Robots.Render.{Rendered}
use Prim.Native.Char.{char}
use crawlwall.Tests.Data.{sample_config, crawler, plain, rule, limited_action, no_audit}

-- Tally marks in place of digits.
abbrev tally : ℕ → String
tally zero = ""
tally (suc n) = String.◌∷◌ (char b'1' tt) (tally n)

abbrev pub robots_formats : Formats
robots_formats = record { decimal = tally; quoted = λ s. s }

abbrev private_condition : String
private_condition = "path.under('/private') && !path.under(\"/private/open\")"

abbrev private : Program
private vs =
    let path = resolve_path (λ v. "") vs "request.path" in
    ok (bool (has_prefix path "/private" && not (has_prefix path "/private/open")))

abbrev always : Program
always vs = ok (bool true)

abbrev path_cel : Cel
path_cel = record {
  compile = λ source. ok (record {
    assignable_to_bool = true;
    is_dyn = false;
    type_name = "bool";
    program = ok (if source == private_condition then private else always);
  });
}

abbrev config : Config
config = record sample_config {
  sets = some (field "open" (array (item (text "/about") (item (text "x") no_items))) no_fields);
  rules =
      rule "limit" (pos 20) "request.method" limited_action
      ∷ rule "private" (pos 10) private_condition (plain "block")
      ∷ [];
}

abbrev paths : List String
paths = "/" ∷ "/about" ∷ "/private" ∷ "/private/open" ∷ []

candidate_paths_sample : candidate_paths config ≡ paths
unfolding candidate_paths crawlwall.Base.Sort.sort_by has_prefix crawlwall.Base.Text.member
    byte_length
candidate_paths_sample = refl

abbrev private_rule : CompiledRule
private_rule = record {
  id = "private";
  priority = pos 10;
  condition = private_condition;
  action = plain "block";
  audit = no_audit;
  program = private;
}

abbrev engine : Engine
engine = record {
  rules =
      private_rule
      ∷ record {
        id = "limit";
        priority = pos 20;
        condition = "request.method";
        action = limited_action;
        audit = no_audit;
        program = always;
      }
      ∷ [];
  sets = field "open" (array (item (text "/about") (item (text "x") no_items))) no_fields;
  site =
      field "id" (text "site")
        (field "host" (text "site.example") (field "mode" (text "enforce") no_fields));
  default_action = plain "allow";
}

abbrev crawler_group : Group
crawler_group = record {
  agents = "CrawlBot" ∷ [];
  disallow = "/private" ∷ [];
  allow = "/private/open" ∷ [];
  crawl_delay = 2;
  wildcard = false;
}

build_group_sample : build_group config engine crawler (candidate_paths config) ≡ ok crawler_group
unfolding build_group agents_for crawlwall.Base.Text.trim_space candidate_paths
    crawlwall.Base.Sort.sort_by has_prefix crawlwall.Base.Text.member byte_length probe
    crawlwall.Policy.Engine.evaluate resolve_path crawlwall.Base.Text.split_on
    crawlwall.Policy.Input.enter crawlwall.Policy.Input.vars directives crawlwall.Base.Dict.insert
build_group_sample = refl

abbrev verdicts : Dict Bool
verdicts = ("/private", true) ∷ ("/about", true) ∷ []

directives-longest_match_example :
    robots_blocks (directives (candidate_paths config) verdicts) "/private/open"
    ≡ is_blocked verdicts "/private/open"
unfolding candidate_paths crawlwall.Base.Sort.sort_by has_prefix crawlwall.Base.Text.member
    byte_length
directives-longest_match_example =
    directives-longest_match (candidate_paths config) verdicts (candidate_paths-nonempty config)
      "/private/open" (there (there (there here)))

build_group-agrees_example :
    (d : Decision) × (probe config engine crawler "/private" ≡ ok d)
    × (robots_blocks ("/private" ∷ [], "/private/open" ∷ []) "/private"
        ≡ (d.action.type == action_block))
    × (implied_delay d.action ≤ 2)
unfolding agents_for crawlwall.Base.Text.trim_space candidate_paths crawlwall.Base.Sort.sort_by
    has_prefix crawlwall.Base.Text.member byte_length
build_group-agrees_example =
    build_group-agrees config engine crawler crawler_group "CrawlBot" [] "/private" refl
      build_group_sample (there (there here))

abbrev slow_group : Group
slow_group = record crawler_group { agents = "SlowBot" ∷ []; crawl_delay = 0 }

abbrev same_group : Group
same_group = record crawler_group { agents = "ABot" ∷ "BBot" ∷ [] }

merge_groups_sample :
    merge_groups robots_formats (crawler_group ∷ slow_group ∷ same_group ∷ [])
    ≡ record crawler_group { agents = "CrawlBot" ∷ "ABot" ∷ "BBot" ∷ [] } ∷ slow_group ∷ []
unfolding merge_groups crawlwall.Base.Sort.sort_by crawlwall.Base.Text.text_lt
merge_groups_sample = refl

-- Two records with different lines whose signatures are the same text become one.
signature_collision :
    merge_groups robots_formats (
      record crawler_group { disallow = "/a,/b" ∷ [] }
      ∷ record same_group { disallow = "/a" ∷ "/b" ∷ [] }
      ∷ [])
    ≡ record crawler_group { agents = "CrawlBot" ∷ "ABot" ∷ "BBot" ∷ []; disallow = "/a,/b" ∷ [] }
      ∷ []
unfolding merge_groups crawlwall.Base.Sort.sort_by
signature_collision = refl

abbrev body : String
body =
    "# Generated by crawlwall from the enforced policy. Do not edit by hand.\n\nUser-agent: CrawlBot\nDisallow: /private\nAllow: /private/open\nCrawl-delay: 11\n\nUser-agent: *\nDisallow: /private\nAllow: /private/open\nCrawl-delay: 11\n"

abbrev rendered : Rendered
rendered = record {
  body = body;
  warned = "rule limit depends on request.method: robots.txt cannot vary by HTTP method" ∷ [];
}

abbrev human_group : Group
human_group = record crawler_group { agents = "*" ∷ []; wildcard = true }

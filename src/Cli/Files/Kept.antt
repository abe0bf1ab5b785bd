-- ===== src/Cli/Files/Kept.antt =====
-- cmd/crawlwall/main.go, `init` without `--force`: the files that are there.
use mathlib.Core.Path.{subst}
use crawlwall.Base.{
  ℕ, String, ◌≡◌, refl, sym, ◌∙◌, inl, inr, Bool, true, false, Option, none, some, ◌==◌, eq_iff,
  arith, Bool-cases, Option-cases, List, [], ◌∷◌, All, Result, ok, err,
}
use crawlwall.Base.Dict.{lookup, lookup-insert}
use crawlwall.Cli.Scaffold.{caddyfile_text, gitignore_text, scaffold_policy}
use crawlwall.Cli.Files.{
  File, Store, Faults, FileError, Outcome, and_next, unless, put, InitOptions, Keys, when,
  write_file, make_directory, refuse_existing, guard, write_scaffold_file, generate_key_pair_files,
  write_key_pair, run_steps, starter_steps, init_with, run_init,
}

-- Each file of the one store is in the other, with its contents and permissions.
abbrev pub Keeps : Store → Store → Type 0
Keeps s t = (path : String) (f : File) → lookup path s ≡ some f → lookup path t ≡ some f

Keeps-put :
    (s t : Store) (path contents : String) (permissions : ℕ)
    → lookup path s ≡ none
    → Keeps s t
    → Keeps s (put path contents permissions t)
unfolding put
Keeps-put s t path contents permissions absent h other f present =
    lookup-insert path other _ t ∙ elim (Bool-cases (path == other)) [
      | inr n ↦ rw n (h other f present)
      | inl e ↦
          let same : path ≡ other = ground (arith, eq_iff path other) in
          let found : lookup path s ≡ some f = rw same present in absurd (ground arith)
    ]

Keeps-and_next :
    (s : Store) (o : Outcome) (next : Store → Outcome)
    → Keeps s o.0
    → ((t : Store) → Keeps s t → Keeps s ((next t).0))
    → Keeps s ((and_next o next).0)
Keeps-and_next s (t, none) next h k = k t h
Keeps-and_next s (t, some e) next h k = h

Keeps-unless :
    (s t : Store) (check : Option FileError) (next : Outcome)
    → Keeps s t
    → (check ≡ none → Keeps s next.0)
    → Keeps s ((unless check t next).0)
Keeps-unless s t none next h k = k refl
Keeps-unless s t (some e) next h k = h

-- A step after which the files of `s` are still there.
abbrev Gentle : Store → (Store → Outcome) → Type 0
Gentle s step = (t : Store) → Keeps s t → Keeps s ((step t).0)

Gentle-when :
    (s : Store) (b : Bool) (step : Store → Outcome) → Gentle s step → Gentle s (when b step)
Gentle-when s true step k = k
Gentle-when s false step k = λ t h. h

Keeps-run_steps :
    (s t : Store) (steps : List (Store → Outcome))
    → All (Gentle s) steps
    → Keeps s t
    → Keeps s ((run_steps steps t).0)
unfolding run_steps
Keeps-run_steps s t [] k h = h
Keeps-run_steps s t (step ∷ steps) k h =
    Keeps-and_next s (step t) (run_steps steps) (k.0 t h) (λ u l. Keeps-run_steps s u steps k.1 l)

module _ (faults : Faults) where
  Keeps-write_file :
      (s t : Store) (path contents : String) (permissions : ℕ)
      → lookup path s ≡ none
      → Keeps s t
      → Keeps s ((write_file faults path contents permissions t).0)
  unfolding write_file
  Keeps-write_file s t path contents permissions absent h =
      elim (Option-cases (faults.write path)) [
        | inl e ↦ rw (e, write_file) (Keeps-put s t path contents permissions absent h)
        | inr (m, e) ↦ rw (e, write_file) h
      ]

  guard-absent :
      (path : String) (t : Store) → guard faults false path t ≡ none → lookup path t ≡ none
  unfolding guard refuse_existing
  guard-absent path t h = elim (Option-cases (lookup path t)) [
    | inl e ↦ e
    | inr (f, e) ↦ elim (Option-cases (faults.stat path)) [
      | inl g ↦ absurd (some≢none (rw (g, e, refuse_existing, guard) at h))
      | inr (m, g) ↦ absurd (some≢none (rw (g, refuse_existing, guard) at h))
    ]
  ]
    where
      some≢none : {A : Type 0} {a : A} → some a ≡ none → ⊥
      some≢none e = cc

  -- what a guard lets through was not there before
  still_absent :
      (s t : Store) (path : String) → Keeps s t → lookup path t ≡ none → lookup path s ≡ none
  still_absent s t path h absent = elim (Option-cases (lookup path s)) [
    | inl e ↦ e
    | inr (f, e) ↦ absurd (ground (arith, h path f e))
  ]

  Keeps-write_scaffold_file :
      (s t : Store) (path contents : String) (permissions : ℕ)
      → Keeps s t
      → Keeps s ((write_scaffold_file faults false path contents permissions t).0)
  unfolding write_scaffold_file
  Keeps-write_scaffold_file s t path contents permissions h =
      Keeps-unless s t (guard faults false path t) _ h (λ g.
        Keeps-unless s t (make_directory faults path) _ h (λ _.
          Keeps-write_file s t path contents permissions
            (still_absent s t path h (guard-absent path t g)) h))

  Keeps-generate :
      (s t : Store) (keys : Keys) (private_path public_path : String)
      → lookup private_path s ≡ none
      → lookup public_path s ≡ none
      → Keeps s t
      → Keeps s ((generate_key_pair_files faults keys private_path public_path t).0)
  unfolding generate_key_pair_files
  Keeps-generate s t (err m) private_path public_path a b h = h
  Keeps-generate s t (ok (private_pem, public_pem)) private_path public_path a b h =
      Keeps-unless s t (make_directory faults private_path) _ h (λ _.
        Keeps-unless s t (make_directory faults public_path) _ h (λ _.
          Keeps-and_next s (write_file faults private_path private_pem 0o600 t) _
            (Keeps-write_file s t private_path private_pem 0o600 a h)
            (λ u k. Keeps-write_file s u public_path public_pem 0o644 b k)))

  Keeps-write_key_pair :
      (s t : Store) (keys : Keys) (private_path public_path : String)
      → Keeps s t
      → Keeps s ((write_key_pair faults false keys private_path public_path t).0)
  unfolding write_key_pair
  Keeps-write_key_pair s t keys private_path public_path h =
      Keeps-unless s t (guard faults false private_path t) _ h (λ g.
        Keeps-unless s t (guard faults false public_path t) _ h (λ k.
          Keeps-generate s t keys private_path public_path
            (still_absent s t private_path h (guard-absent private_path t g))
            (still_absent s t public_path h (guard-absent public_path t k)) h))

  module _ (to_lower join : String → String) (keys : Keys) where
    starter_steps-Gentle :
        (s : Store) (o : InitOptions) (policy_text : String)
        → All (Gentle s) (starter_steps faults join keys o false policy_text)
    unfolding starter_steps
    starter_steps-Gentle s o policy_text = (
      λ t h. Keeps-write_scaffold_file s t (join "crawlwall.yaml") policy_text 0o644 h,
      (
        Gentle-when s o.write_caddyfile
            (write_scaffold_file faults false (join "Caddyfile") caddyfile_text 0o644)
            (λ t h. Keeps-write_scaffold_file s t (join "Caddyfile") caddyfile_text 0o644 h),
        (
          Gentle-when s o.write_gitignore
              (write_scaffold_file faults false (join ".gitignore") gitignore_text 0o644)
              (λ t h. Keeps-write_scaffold_file s t (join ".gitignore") gitignore_text 0o644 h),
          (
            Gentle-when s o.generate_keys
                (write_key_pair faults false keys (join "crawlwall.key") (join "crawlwall.pub"))
                (λ t h.
                  Keeps-write_key_pair s t keys (join "crawlwall.key") (join "crawlwall.pub") h),
            tt,
          ),
        ),
      ),
    )

    Keeps-init_with :
        (o : InitOptions) (policy : Result String String) (s : Store)
        → o.force ≡ false
        → Keeps s ((init_with faults join keys o policy s).0)
    Keeps-init_with o (err profile) s gentle = λ p f e. e
    Keeps-init_with o (ok policy_text) s gentle =
        Keeps-unless s s (make_directory faults o.directory) _ (λ p f e. e)
          (λ _.
            subst
              (λ force.
                Keeps s ((run_steps (starter_steps faults join keys o force policy_text) s).0))
              (sym gentle)
              (Keeps-run_steps s s (starter_steps faults join keys o false policy_text)
                (starter_steps-Gentle s o policy_text) (λ p f e. e)))

    -- `init` without `--force` changes no file that is there, whether it succeeds or fails on its
    -- way: its contents and permissions stay.
    pub run_init-Keeps :
        (o : InitOptions) (s : Store) (path : String) (f : File)
        → o.force ≡ false
        → lookup path s ≡ some f
        → lookup path ((run_init faults to_lower join keys o s).0) ≡ some f
    unfolding run_init
    run_init-Keeps o s path f gentle present =
        Keeps-init_with o (scaffold_policy to_lower o.profile) s gentle path f present

-- ===== src/Registry/Discover.antt =====
-- What `discover` and `get` return: a broken manifest costs only its own server.
use gpt_jupyter_dns.Prelude.{
  String, ◌<>◌, ◌≡◌, refl, inl, inr, ◌≢◌, ◌⊎◌, true, false, Option, none, some, List, [], ◌∷◌, ◌++◌,
  contains, sorted, contains-sorted, if◌then◌else◌, eq_iff, arith, All,
}
use gpt_jupyter_dns.Dict.{Dict, lookup, lookup-insert, lookup-nil, insert}
use gpt_jupyter_dns.Result.{Result, ok, err, Error, Result-cases, ◌>>=◌}
use gpt_jupyter_dns.Model.{ServerSpec}
use gpt_jupyter_dns.Registry.{Disk, load_manifest, discover_loop, discover, get}
use gpt_jupyter_dns.Registry.Loaded.{load_manifest-IsWellFormed}

-- What loads, as an option.
abbrev pub loaded : Result ServerSpec → Option ServerSpec
loaded (ok s) = some s
loaded (err e) = none

-- The manifest in the directory `n` loads and is among `names`.
abbrev pub find_loaded : Disk → String → List String → String → Option ServerSpec
find_loaded disk root names n =
    if contains n names then loaded (load_manifest disk root n) else none

abbrev or_else : Option ServerSpec → Option ServerSpec → Option ServerSpec
or_else none o = o
or_else (some s) o = some s

or_else-none : (o : Option ServerSpec) → or_else o none ≡ o
or_else-none none = refl
or_else-none (some s) = refl

module _ (disk : Disk) (root : String) where
  -- the specs that the lenient loop ends with
  survivors : List String → Dict ServerSpec → Dict ServerSpec
  survivors [] specs = specs
  survivors (name ∷ names) specs = elim (load_manifest disk root name) [
    | ok spec ↦ survivors names (insert spec.name spec specs)
    | err e ↦ survivors names specs
  ]

  discover_loop-survivors :
      (names : List String) (specs : Dict ServerSpec)
      → discover_loop disk root false names specs ≡ ok (survivors names specs)
  unfolding discover_loop survivors
  discover_loop-survivors [] specs = refl
  discover_loop-survivors (name ∷ names) specs =
      elim (Result-cases (load_manifest disk root name)) [
        | inl (s, e) ↦ rw (e, discover_loop, survivors) (discover_loop-survivors names _)
        | inr (x, e) ↦ rw (e, discover_loop, survivors) (discover_loop-survivors names specs)
      ]

  lookup-survivors :
      (names : List String) (specs : Dict ServerSpec) (n : String)
      → lookup n (survivors names specs) ≡ or_else (find_loaded disk root names n) (lookup n specs)
  unfolding survivors
  lookup-survivors [] specs n = refl
  lookup-survivors (name ∷ names) specs n = elim (Result-cases (load_manifest disk root name)) [
    | inl (s, e) ↦
        rw (e, survivors)
          (ground (
            arith,
            lookup-survivors names (insert s.name s specs) n,
            lookup-insert n s.name s specs,
            (load_manifest-IsWellFormed disk root name e).named,
            eq_iff name n,
          ))
    | inr (x, e) ↦ rw (e, survivors) (ground (arith, lookup-survivors names specs n, eq_iff name n))
  ]

  -- `n` is the first of the names whose manifest fails, with `e`.
  abbrev pub FirstFailure : List String → String → Error → Type 0
  FirstFailure names n e =
      (before after : List String) × (names ≡ before ++ n ∷ after)
      × All (λ m. loaded (load_manifest disk root m) ≢ none) before
      × (load_manifest disk root n ≡ err e)

  -- The strict loop ends as the lenient one does, or stops at the first failure.
  abbrev StrictOutcome : List String → Dict ServerSpec → Type 0
  StrictOutcome names specs =
      (All (λ m. loaded (load_manifest disk root m) ≢ none) names
        × (discover_loop disk root true names specs ≡ ok (survivors names specs)))
      ⊎ ((n : String) × (e : Error) × FirstFailure names n e
          × (discover_loop disk root true names specs ≡ err e))

  discover_loop-strict : (names : List String) (specs : Dict ServerSpec) → StrictOutcome names specs
  unfolding discover_loop survivors
  discover_loop-strict [] specs = inl (tt, refl)
  discover_loop-strict (name ∷ names) specs = elim (Result-cases (load_manifest disk root name)) [
    | inl (s, e) ↦
        rw (e, discover_loop, survivors)
          (elim (discover_loop-strict names (insert s.name s specs)) [
            | inl (fine, same) ↦ inl ((λ h. cc, fine), same)
            | inr (n, x, (before, after, split, fine, fails), stops) ↦
                inr (n, x, (name ∷ before, after, rw split, (λ h. cc, fine), fails), stops)
          ])
    | inr (x, e) ↦ inr (name, x, ([], names, refl, tt, e), rw (e, discover_loop))
  ]

  -- Discovery by default always returns, and finds exactly the server modules whose own manifest
  -- loads: a broken one hides no other.
  pub discover-finds :
      disk.is_dir root ≡ true
      → (specs : Dict ServerSpec) × (discover disk root false ≡ ok specs)
        × ((n : String) → lookup n specs ≡ find_loaded disk root (disk.glob root) n)
  unfolding discover
  discover-finds present = (
    survivors (sorted (disk.glob root)) [],
    rw (present, discover_loop-survivors),
    λ n. rw (lookup-survivors, contains-sorted, lookup-nil) (or_else-none _),
  )

  -- Strict discovery ends in one of two ways. Either every manifest loads, and it returns what the lenient
  -- one does. Or some manifest fails, and it raises what the first of these raises, in sorted order.
  pub discover-strict :
      disk.is_dir root ≡ true
      → (All (λ m. loaded (load_manifest disk root m) ≢ none) (sorted (disk.glob root))
          × (discover disk root true ≡ discover disk root false))
        ⊎ ((n : String) × (e : Error) × FirstFailure (sorted (disk.glob root)) n e
            × (discover disk root true ≡ err e))
  unfolding discover
  discover-strict present =
      rw (present, discover_loop-survivors)
        (elim (discover_loop-strict (sorted (disk.glob root)) []) [
          | inl (fine, same) ↦ inl (fine, same)
          | inr (n, e, first, stops) ↦ inr (n, e, first, stops)
        ])

  -- `get` agrees with `discover`, also beside broken manifests: it returns a spec exactly if the
  -- directory is among those found, and then the same one. Here a directory is listed exactly if
  -- it has a manifest file.
  pub get-discover :
      (n : String)
      → disk.is_dir root ≡ true
      → disk.is_file (root <> "/" <> n <> "/manifest.yaml") ≡ contains n (disk.glob root)
      → (specs : Dict ServerSpec) × (discover disk root false ≡ ok specs)
        × (loaded (get disk root n) ≡ lookup n specs)
  unfolding get ◌>>=◌
  get-discover n present listed =
      let (specs, found, finds) = discover-finds present in
      (specs, found, rw (listed, found, finds) (ground arith))

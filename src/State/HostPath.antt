-- ===== src/State/HostPath.antt =====
-- Which paths `to_host_path` translates, and into what.
use mathlib.Core.Path.{subst}
use text.Mathlib.TextLemmas.{
  nil-append, cons-append, append_assoc, append_cancel_left, append-nil, head-eq_of_cons-eq,
}
use text.Mathlib.TextEquality.{starts_with_iff}
use text.Mathlib.TextPositions.{starts_with-append}
use gpt_jupyter_dns.Prelude.{
  String, ◌<>◌, ◌≡◌, refl, sym, ap, ◌∙◌, ◌≢◌, ◌⊎◌, Option, none, some, ◌==◌, starts_with, arith,
  eq_refl, eq_iff, Bool-cases, Option-cases, inl, inr,
}
use gpt_jupyter_dns.Dict.{lookup}
use gpt_jupyter_dns.State.{Env, behind, below, mapped, to_host_path}

behind-append : (p s : String) → behind p (p <> s) ≡ some s
unfolding behind
behind-append String.[] s = rw nil-append refl
behind-append (String.◌∷◌ c p) s = rw (cons-append, behind, eq_refl) (behind-append p s)

behind-split : (p s rest : String) → behind p s ≡ some rest → s ≡ p <> rest
unfolding behind
behind-split String.[] s rest h = rw nil-append (cc (h))
behind-split (String.◌∷◌ c p) String.[] rest h = absurd (cc)
behind-split (String.◌∷◌ c p) (String.◌∷◌ d s) rest h =
    elim (Bool-cases (String.◌∷◌ c String.[] == String.◌∷◌ d String.[])) [
      | inl same ↦
          let is_c : c ≡ d = head-eq_of_cons-eq ((eq_iff _ _).0 same) in
          let split = behind-split p s rest (rw same at h) in cc (is_c, split, cons-append c p rest)
      | inr differs ↦ absurd (cc (rw differs at h))
    ]

-- What is kept of a path below a prefix: nothing, or a text that begins with a slash.
abbrev pub IsBelow : String → Type 0
IsBelow rest = (rest ≡ "") ⊎ ((r : String) × (rest ≡ "/" <> r))

below-split :
    (prefix p rest : String) → below prefix p ≡ some rest → (p ≡ prefix <> rest) × IsBelow rest
unfolding below
below-split prefix p rest h = elim (Bool-cases (p == prefix)) [
  | inl same ↦
      let split = behind-split prefix p rest (ground arith) in
      (
        split,
        inl (
            append_cancel_left prefix rest ""
              (sym split ∙ (eq_iff p prefix).0 same ∙ sym (append-nil prefix))),
      )
  | inr other ↦ elim (Bool-cases (starts_with p (prefix <> "/"))) [
    | inl begins ↦
        let split = behind-split prefix p rest (ground arith) in
        let (r, whole) = (starts_with_iff p (prefix <> "/")).0 begins in
        (
          split,
          inr (
            r,
            append_cancel_left prefix rest ("/" <> r)
                (sym split ∙ sym whole ∙ append_assoc prefix "/" r),
          ),
        )
    | inr neither ↦ absurd (ground arith)
  ]
]

below-append : (prefix rest : String) → below prefix ((prefix <> "/") <> rest) ≡ some ("/" <> rest)
unfolding below
below-append prefix rest = ground (
  arith,
  starts_with-append (prefix <> "/") rest,
  ap (behind prefix) (append_assoc prefix "/" rest) ∙ behind-append prefix ("/" <> rest),
)

-- The two directories that `to_host_path` knows, with the variables that hold their host paths.
abbrev pub Mapping : String → String → Type 0
Mapping prefix variable =
    ((prefix ≡ "/workspace") × (variable ≡ "DNSLAB_HOST_WORKSPACE"))
    ⊎ ((prefix ≡ "/opt/dnslab/dnslab") × (variable ≡ "DNSLAB_HOST_DNSLAB"))

-- `q` is `p` with the prefix of one of the two directories replaced by the directory's host path.
abbrev pub Translated : Env → String → String → Type 0
Translated env p q =
    (prefix variable host rest : String) × Mapping prefix variable
    × (lookup variable env ≡ some host)
    × (host ≢ "")
    × (p ≡ prefix <> rest)
    × IsBelow rest
    × (q ≡ host <> rest)

mapped-Translated :
    (prefix : String) (value : Option String) (p q : String)
    → mapped prefix value p ≡ some q
    → (host rest : String) × (value ≡ some host)
      × (host ≢ "")
      × (p ≡ prefix <> rest)
      × IsBelow rest
      × (q ≡ host <> rest)
unfolding mapped
mapped-Translated prefix none p q h = absurd (cc)
mapped-Translated prefix (some host) p q h = elim (Bool-cases (host == "")) [
  | inl blank ↦ absurd (cc (rw blank at h))
  | inr filled ↦ elim (Option-cases (below prefix p)) [
    | inl outside ↦ absurd (cc (rw (filled, outside) at h))
    | inr (rest, inside) ↦
        let (split, is_below) = below-split prefix p rest inside in
        (
          host,
          rest,
          refl,
          (λ e. cc (e, eq_refl "")),
          split,
          is_below,
          cc (rw (filled, inside) at h),
        )
  ]
]

-- `to_host_path` returns the resolved path itself, or the resolved path with the prefix `/workspace` or
-- `/opt/dnslab/dnslab` replaced by the value of its variable, which is set and not empty; what is behind
-- the prefix is kept, and is empty or begins with a slash.
pub to_host_path-translates {ℓ} :
    {A : Type ℓ} (resolve : A → String) (env : Env) (path : A)
    → (to_host_path resolve env path ≡ resolve path)
      ⊎ Translated env (resolve path) (to_host_path resolve env path)
unfolding to_host_path
to_host_path-translates resolve env path =
    elim (Option-cases (mapped "/workspace" (lookup "DNSLAB_HOST_WORKSPACE" env) (resolve path))) [
      | inr (q, first) ↦
          let (host, rest, set, filled, split, is_below, moved) =
            mapped-Translated "/workspace" (lookup "DNSLAB_HOST_WORKSPACE" env) (resolve path) q
              first in
          let result : to_host_path resolve env path ≡ q = rw (to_host_path, first) in
          inr (
            subst (λ r. Translated env (resolve path) r) (sym result)
              (
                "/workspace",
                "DNSLAB_HOST_WORKSPACE",
                host,
                rest,
                inl (refl, refl),
                set,
                filled,
                split,
                is_below,
                moved,
              ))
      | inl none_first ↦
          elim (Option-cases
            (mapped "/opt/dnslab/dnslab" (lookup "DNSLAB_HOST_DNSLAB" env) (resolve path))) [
              | inr (q, second) ↦
                  let (host, rest, set, filled, split, is_below, moved) =
                    mapped-Translated "/opt/dnslab/dnslab" (lookup "DNSLAB_HOST_DNSLAB" env)
                      (resolve path) q second in
                  let result : to_host_path resolve env path ≡ q =
                    rw (to_host_path, none_first, second) in
                  inr (
                    subst (λ r. Translated env (resolve path) r) (sym result)
                      (
                        "/opt/dnslab/dnslab",
                        "DNSLAB_HOST_DNSLAB",
                        host,
                        rest,
                        inr (refl, refl),
                        set,
                        filled,
                        split,
                        is_below,
                        moved,
                      ))
              | inl none_second ↦ inl (rw (to_host_path, none_first, none_second))
            ]
    ]

-- With `DNSLAB_HOST_WORKSPACE` set and not empty, every path that resolves to one below `/workspace` has
-- that prefix of the resolved path replaced by the variable's value.
pub to_host_path-workspace {ℓ} :
    {A : Type ℓ} (resolve : A → String) (env : Env) (path : A) (host rest : String)
    → resolve path ≡ "/workspace/" <> rest
    → lookup "DNSLAB_HOST_WORKSPACE" env ≡ some host
    → host ≢ ""
    → to_host_path resolve env path ≡ host <> "/" <> rest
unfolding to_host_path mapped
to_host_path-workspace resolve env path host rest resolved set filled =
    let inside : below "/workspace" ("/workspace/" <> rest) ≡ some ("/" <> rest) =
      below-append "/workspace" rest in
    ground (arith, resolved, set, inside, filled, eq_iff host "")

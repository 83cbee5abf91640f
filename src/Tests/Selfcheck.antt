-- ===== src/Tests/Selfcheck.antt =====
-- The self-check of a server with one broken template.
use gpt_jupyter_dns.Prelude.{
  ℕ, ◌+◌, ◌<◌, String, ◌≡◌, refl, ◌⊎◌, true, false, [], ◌∷◌, if◌then◌else◌,
}
use gpt_jupyter_dns.Result.{Result, ok, err, other_error}
use gpt_jupyter_dns.Action.{Action, pure, raise}
use gpt_jupyter_dns.Action.Kept.{Kept-pure, Kept-raise, Kept-if}
use gpt_jupyter_dns.Value.{pos, is_text}
use gpt_jupyter_dns.Selfcheck.{Tools, main}
use gpt_jupyter_dns.Selfcheck.Tally.{Counts, failure}
use gpt_jupyter_dns.Selfcheck.Failures.{main-exit}
use gpt_jupyter_dns.Tests.{lab_disk}

-- The world is the number of failures that were printed.
abbrev strict : Tools ℕ
strict = record {
  render = λ dir template ctx.
      if is_text "tls.j2" template
      then raise (other_error "undefined name")
      else pure "options {};";
  is_template_error = λ e. true;
  print = λ l w. (ok tt, w + failure l);
  which = λ program. pure false;
  make_temp = pure "/tmp/x.conf";
  write_temp = λ path text. pure tt;
  unlink = λ path. pure tt;
  run = λ cmd. pure (record { returncode = pos 0; stdout = ""; stderr = "" });
  split = λ s. s ∷ [];
  format = λ tool path. ok tool;
  str_error = λ e. "undefined name";
}

strict-Counts : Counts strict (λ w. w)
strict-Counts = record {
  print = λ l w. (w + failure l, refl, refl);
  render = λ k dir template ctx.
      Kept-if (λ w. w ≡ k) (is_text "tls.j2" template) (Kept-raise (λ w. w ≡ k) _)
        (Kept-pure (λ w. w ≡ k) _);
  which = λ k program. Kept-pure (λ w. w ≡ k) _;
  make_temp = λ k. Kept-pure (λ w. w ≡ k) _;
  write_temp = λ k path text. Kept-pure (λ w. w ≡ k) _;
  unlink = λ k path. Kept-pure (λ w. w ≡ k) _;
  run = λ k cmd. Kept-pure (λ w. w ≡ k) _;
}

one_broken : main strict lab_disk "servers" ("bind" ∷ []) 0 ≡ (ok 1, 1)
unfolding main gpt_jupyter_dns.Prelude.sorted gpt_jupyter_dns.Certs.unique
    gpt_jupyter_dns.Registry.get gpt_jupyter_dns.Registry.load_manifest gpt_jupyter_dns.Result.◌>>=◌
    gpt_jupyter_dns.Dict.has_key gpt_jupyter_dns.Value.to_dict
    gpt_jupyter_dns.Model.profile_from_dict gpt_jupyter_dns.Value.subscript
    gpt_jupyter_dns.Value.iterate gpt_jupyter_dns.Value.to_int
    gpt_jupyter_dns.Model.capabilities_from_dict gpt_jupyter_dns.Value.to_set
    gpt_jupyter_dns.Dict.insert gpt_jupyter_dns.Action.◌>>=◌ gpt_jupyter_dns.Action.catch
    gpt_jupyter_dns.Dict.lookup gpt_jupyter_dns.Model.extras gpt_jupyter_dns.Registry.discover
    gpt_jupyter_dns.Registry.join gpt_jupyter_dns.Selfcheck.sorted_items
    gpt_jupyter_dns.Value.parse_int gpt_jupyter_dns.Value.repr gpt_jupyter_dns.Value.repr_text
    gpt_jupyter_dns.Value.show_ℕ gpt_jupyter_dns.Value.to_text gpt_jupyter_dns.Value.truthy
    gpt_jupyter_dns.Selfcheck.lint_rendered
one_broken = refl

abbrev one : ℕ
one = 1

abbrev none_before : ℕ
none_before = 0

main-exit_example :
    ((one ≡ 2) × ((one ≡ none_before) ⊎ (one ≡ none_before + 1)))
    ⊎ ((one ≡ 0) × (one ≡ none_before))
    ⊎ ((one ≡ 1) × (none_before < one))
main-exit_example =
    main-exit strict (λ w. w) strict-Counts lab_disk "servers" ("bind" ∷ []) none_before one one
      one_broken

-- ===== src/Tests/Registry.antt =====
-- The registry's theorems, at a lab with one good and one broken manifest.
use gpt_jupyter_dns.Prelude.{String, ◌≡◌, ◌≢◌, refl, ◌⊎◌, true, false, none, sorted, All}
use gpt_jupyter_dns.Dict.{Dict, lookup}
use gpt_jupyter_dns.Result.{Result, ok, err, Error}
use gpt_jupyter_dns.Model.{ServerSpec}
use gpt_jupyter_dns.Registry.{load_manifest, discover, get}
use gpt_jupyter_dns.Registry.Loaded.{IsWellFormed, load_manifest-IsWellFormed}
use gpt_jupyter_dns.Registry.Discover.{
  find_loaded, loaded, FirstFailure, discover-finds, discover-strict, get-discover,
}
use gpt_jupyter_dns.Tests.{lab_disk, bind_spec}

pub bind-loads : load_manifest lab_disk "servers" "bind" ≡ ok bind_spec
unfolding load_manifest gpt_jupyter_dns.Result.◌>>=◌ gpt_jupyter_dns.Dict.has_key
    gpt_jupyter_dns.Value.to_dict gpt_jupyter_dns.Model.profile_from_dict
    gpt_jupyter_dns.Value.subscript gpt_jupyter_dns.Value.iterate gpt_jupyter_dns.Value.to_int
    gpt_jupyter_dns.Model.capabilities_from_dict gpt_jupyter_dns.Value.to_set
    gpt_jupyter_dns.Value.truthy gpt_jupyter_dns.Value.to_text
bind-loads = refl

load_manifest-IsWellFormed_example : IsWellFormed lab_disk "servers" "bind" bind_spec
load_manifest-IsWellFormed_example =
    load_manifest-IsWellFormed lab_disk "servers" "bind" {s = bind_spec} bind-loads

discover-finds_example :
    (specs : Dict ServerSpec) × (discover lab_disk "servers" false ≡ ok specs)
    × ((n : String) → lookup n specs ≡ find_loaded lab_disk "servers" (lab_disk.glob "servers") n)
discover-finds_example = discover-finds lab_disk "servers" refl

discover-strict_example :
    (All
        (λ m. loaded (load_manifest lab_disk "servers" m) ≢ none)
        (sorted (lab_disk.glob "servers"))
      × (discover lab_disk "servers" true ≡ discover lab_disk "servers" false))
    ⊎ ((n : String) × (e : Error) × FirstFailure lab_disk "servers"
          (sorted (lab_disk.glob "servers"))
          n
          e
        × (discover lab_disk "servers" true ≡ err e))
discover-strict_example = discover-strict lab_disk "servers" refl

get-discover_example :
    (specs : Dict ServerSpec) × (discover lab_disk "servers" false ≡ ok specs)
    × (loaded (get lab_disk "servers" "bind") ≡ lookup "bind" specs)
get-discover_example = get-discover lab_disk "servers" "bind" refl refl

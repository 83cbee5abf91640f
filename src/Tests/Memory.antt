-- ===== src/Tests/Memory.antt =====
-- The entries of a state file with two instances.
use gpt_jupyter_dns.Prelude.{
  String, ◌≡◌, refl, true, false, none, some, [], ◌∷◌, ◌==◌, contains, if◌then◌else◌,
}
use gpt_jupyter_dns.Dict.{Dict, lookup}
use gpt_jupyter_dns.Result.{ok}
use gpt_jupyter_dns.Value.{Value, str, dict, field, end, of_entries}
use gpt_jupyter_dns.Model.{Instance}
use gpt_jupyter_dns.Ec2.Memory.{instances_of, remembered, forgotten, is_forgotten, entry_of}
use gpt_jupyter_dns.Ec2.Memory.Entries.{remembered-lookup, forgotten-lookup}

abbrev entry : String → Value
entry id = dict (field "id" (str id) end)

abbrev two : Dict Value
two = ("bind", entry "i-1") ∷ ("lab", entry "i-2") ∷ []

abbrev state : Value
state = dict (field "instances" (dict (of_entries two)) end)

reads : instances_of state ≡ ok two
unfolding instances_of gpt_jupyter_dns.Result.◌>>=◌ gpt_jupyter_dns.Value.to_dict lookup
reads = refl

abbrev seen : Instance
seen = record {
  name = "bind";
  server = "bind";
  profile = "plain";
  provider = "ec2";
  id = "i-9";
  host = "h";
  ip = none;
  status = "running";
  extra = [];
}

remembered-lookup_example :
    (st' : Value) × (known' : Dict Value) × (remembered seen state ≡ ok st')
    × (instances_of st' ≡ ok known')
    × ((k : String)
        → lookup k known'
          ≡ (if "bind" == k then some (dict (of_entries (entry_of seen))) else lookup k two))
remembered-lookup_example = remembered-lookup seen state two reads

abbrev left : Value
left = dict (field "instances" (dict (field "bind" (entry "i-1") end)) end)

forgets : forgotten ("i-2" ∷ []) state ≡ ok left
unfolding forgotten gpt_jupyter_dns.Result.◌>>=◌ gpt_jupyter_dns.Value.to_dict lookup
    gpt_jupyter_dns.Dict.insert
forgets = refl

forgotten-lookup_example :
    (known' : Dict Value) × (instances_of left ≡ ok known')
    × ((k : String) → contains k ("i-2" ∷ []) ≡ true → lookup k known' ≡ none)
    × ((k : String) (v : Value)
        → lookup k two ≡ some v
        → is_forgotten ("i-2" ∷ []) k v ≡ ok false
        → lookup k known' ≡ some v)
forgotten-lookup_example = forgotten-lookup ("i-2" ∷ []) state left two reads forgets

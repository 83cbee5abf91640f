-- ===== src/Ec2/Memory.antt =====
-- `dnslab/providers/ec2.py`: the state file of the EC2 provider, `{"instances": {name: entry}}`.
pub mod Entries
use gpt_jupyter_dns.Prelude.{
  String, Bool, true, false, ◌||◌, Option, none, some, List, [], ◌∷◌, ◌==◌, contains, if◌then◌else◌,
}
use gpt_jupyter_dns.Dict.{Dict, lookup, insert, merge}
use gpt_jupyter_dns.Result.{Result, ok, err, type_error, ◌>>=◌}
use gpt_jupyter_dns.Value.{Value, null, str, dict, end, to_dict, get_or, of_entries, is_hashable}
use gpt_jupyter_dns.Model.{Instance}

-- `v or None`, as a value
abbrev pub opt_text : Option String → Value
opt_text none = null
opt_text (some s) = str s

-- The entry that `_remember` writes.
unfoldable pub entry_of : Instance → Dict Value
unfolding merge
entry_of i =
    merge
      (("id", str i.id)
        ∷ ("server", str i.server)
        ∷ ("profile", str i.profile)
        ∷ ("host", str i.host)
        ∷ ("ip", opt_text i.ip)
        ∷ ("status", str i.status)
        ∷ [])
      i.extra

-- `st.get("instances", {})`, as a mapping
unfoldable pub instances_of : Value → Result (Dict Value)
instances_of st = do d ← to_dict st; to_dict (get_or d "instances" (dict end))

-- `_remember`, on the state: the entry of this name is set
unfoldable pub remembered : Instance → Value → Result Value
unfolding instances_of entry_of
remembered i st = do
  d ← to_dict st
  known ← instances_of st
  ok (
      dict (
        of_entries (
          insert "instances"
            (dict (of_entries (insert i.name (dict (of_entries (entry_of i))) known))) d)))

-- `v in names`, of a set of texts
id_among : List String → Value → Result Bool
id_among names (str i) = ok (contains i names)
id_among names v = if is_hashable v then ok false else err type_error

-- `k in names or v.get("id") in names`; `v` is looked at only when `k` is not one of the names
pub is_forgotten : List String → String → Value → Result Bool
unfolding id_among
is_forgotten names k v =
    if contains k names then ok true else (do d ← to_dict v; id_among names (get_or d "id" null))

unless_forgotten : Bool → String × Value → Dict Value → Dict Value
unless_forgotten true e d = d
unless_forgotten false e d = e ∷ d

without_names : List String → Dict Value → Result (Dict Value)
unfolding is_forgotten unless_forgotten
without_names names [] = ok []
without_names names ((k, v) ∷ d) = do
  gone ← is_forgotten names k v
  rest ← without_names names d
  ok (unless_forgotten gone (k, v) rest)

-- Deleting from the mapping under `instances` when there is one; the default `{}` is not stored.
store_instances : Option Value → Dict Value → Dict Value → Value
store_instances none kept d = dict (of_entries d)
store_instances (some v) kept d = dict (of_entries (insert "instances" (dict (of_entries kept)) d))

-- `_forget`, on the state
unfoldable pub forgotten : List String → Value → Result Value
unfolding instances_of without_names store_instances
forgotten names st = do
  d ← to_dict st
  known ← instances_of st
  kept ← without_names names known
  ok (store_instances (lookup "instances" d) kept d)

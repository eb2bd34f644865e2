-- ===== src/Nomad/JobMutator/Tags.antt =====
-- job_mutator.rs: the tags of a service.
use nomad_scale_to_zero.Prelude.{
  String, Bool, true, false, Option, none, some, List, [], ◌∷◌, ◌==◌, if◌then◌else◌,
}
use nomad_scale_to_zero.Prelude.Text.{append, strip_prefix, starts_with, before_sep, text_lt}
use nomad_scale_to_zero.Prelude.Json.{Value, string, Values, end, item, as_str}

abbrev pub traefik_enable_tag : String
traefik_enable_tag = "traefik.enable=true"

abbrev pub router_prefix : String
router_prefix = "traefik.http.routers."

-- `BTreeSet::insert`: sorted, each name once.
unfoldable pub insert_name : String → List String → List String
unfolding text_lt
insert_name n [] = n ∷ []
insert_name n (m ∷ ms) =
    let rest = insert_name n ms in
    if n == m then m ∷ ms else if text_lt n m then n ∷ m ∷ ms else m ∷ rest

-- The router that a tag names.
pub router_name : String → Option String
unfolding strip_prefix before_sep
router_name tag = elim (strip_prefix router_prefix tag) [
  | none ↦ none
  | some rest ↦ before_sep "." rest
]

unfoldable pub collect_router_names : Values → List String
unfolding router_name insert_name as_str
collect_router_names end = []
collect_router_names (item v vs) =
    let rest = collect_router_names vs in
    elim (as_str v) [
      | none ↦ rest
      | some tag ↦ elim (router_name tag) [ none ↦ rest | some n ↦ insert_name n rest ]
    ]

abbrev pub service_prefix : String → String
service_prefix router = append router_prefix (append router ".service=")

-- A tag that starts with the prefix.
unfoldable pub matches : String → Value → Bool
unfolding as_str
matches prefix v = elim (as_str v) [ none ↦ false | some tag ↦ starts_with prefix tag ]

unfoldable pub any_matches : String → Values → Bool
unfolding matches
any_matches prefix end = false
any_matches prefix (item v vs) =
    let rest = any_matches prefix vs in if matches prefix v then true else rest

-- The matching tags removed.
unfoldable pub drop_matching : String → Values → Values
unfolding matches
drop_matching prefix end = end
drop_matching prefix (item v vs) =
    let rest = drop_matching prefix vs in if matches prefix v then rest else item v rest

-- The first matching tag replaced, the others removed.
unfoldable pub replace_matching : String → String → Values → Values
unfolding drop_matching
replace_matching prefix desired end = end
replace_matching prefix desired (item v vs) =
    let rest = replace_matching prefix desired vs in
    if matches prefix v then item (string desired) (drop_matching prefix vs) else item v rest

-- `tags.push(…)`
unfoldable pub push : String → Values → Values
push tag end = item (string tag) end
push tag (item v vs) = item v (push tag vs)

unfoldable pub upsert_router_service_tag : String → String → Values → Values
unfolding any_matches replace_matching push
upsert_router_service_tag router file_provider_service tags =
    let prefix = service_prefix router in
    let desired = append prefix file_provider_service in
    if any_matches prefix tags then replace_matching prefix desired tags else push desired tags

unfoldable pub upsert_all : String → List String → Values → Values
unfolding upsert_router_service_tag
upsert_all file_provider_service [] tags = tags
upsert_all file_provider_service (n ∷ ns) tags =
    upsert_all file_provider_service ns (upsert_router_service_tag n file_provider_service tags)

unfoldable pub has_traefik_enabled : Values → Bool
unfolding as_str
has_traefik_enabled end = false
has_traefik_enabled (item v vs) =
    let rest = has_traefik_enabled vs in
    elim (as_str v) [ none ↦ rest | some tag ↦ if tag == traefik_enable_tag then true else rest ]

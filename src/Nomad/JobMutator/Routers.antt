-- ===== src/Nomad/JobMutator/Routers.antt =====
-- job_mutator.rs: the service tags of a router.
use nomad_scale_to_zero.Prelude.{
  String, ◌≡◌, refl, true, false, arith, Bool-cases, inl, inr, if◌then◌else◌,
}
use nomad_scale_to_zero.Prelude.Text.{append}
use text.Mathlib.TextPositions.{starts_with-append}
use nomad_scale_to_zero.Prelude.Json.{string, Values, end, item}
use nomad_scale_to_zero.Nomad.JobMutator.Tags.{
  service_prefix, matches, any_matches, drop_matching, replace_matching, push,
  upsert_router_service_tag,
}

-- The tags that match, in their order.
pub matching : String → Values → Values
unfolding matches
matching prefix end = end
matching prefix (item v vs) =
    let rest = matching prefix vs in if matches prefix v then item v rest else rest

matches_own : (prefix file : String) → matches prefix (string (append prefix file)) ≡ true
unfolding matches
matches_own prefix file = starts_with-append prefix file

matching-drop : (prefix : String) (vs : Values) → matching prefix (drop_matching prefix vs) ≡ end
unfolding matching drop_matching
matching-drop prefix end = refl
matching-drop prefix (item v vs) = ground (arith, matching-drop prefix vs)

drop-drop :
    (prefix : String) (vs : Values)
    → drop_matching prefix (drop_matching prefix vs) ≡ drop_matching prefix vs
unfolding drop_matching
drop-drop prefix end = refl
drop-drop prefix (item v vs) = ground (arith, drop-drop prefix vs)

module _ (prefix file : String) where
  abbrev desired : String
  desired = append prefix file

  matching-replace :
      (vs : Values)
      → any_matches prefix vs ≡ true
      → matching prefix (replace_matching prefix desired vs) ≡ item (string desired) end
  unfolding matching replace_matching any_matches
  matching-replace end h = absurd (ground arith)
  matching-replace (item v vs) h = elim (Bool-cases (matches prefix v)) [
    | inl found ↦ rw (found, matches_own prefix file, matching-drop prefix vs)
    | inr absent ↦ rw (absent, absent) (matching-replace vs (ground arith))
  ]

  matching-push :
      (vs : Values)
      → any_matches prefix vs ≡ false
      → matching prefix (push desired vs) ≡ item (string desired) end
  unfolding matching push any_matches
  matching-push end h = rw (matches_own prefix file)
  matching-push (item v vs) h = ground (arith, matching-push vs)

  drop-replace :
      (vs : Values)
      → drop_matching prefix (replace_matching prefix desired vs) ≡ drop_matching prefix vs
  unfolding drop_matching replace_matching
  drop-replace end = refl
  drop-replace (item v vs) =
      ground (arith, drop-replace vs, drop-drop prefix vs, matches_own prefix file)

  drop-push : (vs : Values) → drop_matching prefix (push desired vs) ≡ drop_matching prefix vs
  unfolding drop_matching push
  drop-push end = rw (matches_own prefix file)
  drop-push (item v vs) = ground (arith, drop-push vs)

-- After the upsert of a router, whatever tags there were, the tags with the router's service prefix
-- are exactly one, which names nscale's service, and all other tags are kept in their order.
pub upsert-one_tag :
    (router file : String) (tags : Values)
    → (matching (service_prefix router) (upsert_router_service_tag router file tags)
        ≡ item (string (append (service_prefix router) file)) end)
      × (drop_matching (service_prefix router) (upsert_router_service_tag router file tags)
          ≡ drop_matching (service_prefix router) tags)
unfolding upsert_router_service_tag
upsert-one_tag router file tags =
    let p : String = service_prefix router in
    elim (Bool-cases (any_matches p tags)) [
      | inl found ↦
          (rw found (matching-replace p file tags found), rw found (drop-replace p file tags))
      | inr absent ↦
          (rw absent (matching-push p file tags absent), rw absent (drop-push p file tags))
    ]

any_matches-drop :
    (prefix : String) (vs : Values) → any_matches prefix (drop_matching prefix vs) ≡ false
unfolding any_matches drop_matching
any_matches-drop prefix end = refl
any_matches-drop prefix (item v vs) = ground (arith, any_matches-drop prefix vs)

drop_matching-none :
    (prefix : String) (vs : Values) → any_matches prefix vs ≡ false → drop_matching prefix vs ≡ vs
unfolding any_matches drop_matching
drop_matching-none prefix end h = refl
drop_matching-none prefix (item v vs) h = ground (arith, drop_matching-none prefix vs)

module _ (prefix file : String) where
  any_matches-replace :
      (vs : Values)
      → any_matches prefix (replace_matching prefix (append prefix file) vs) ≡ any_matches prefix vs
  unfolding any_matches replace_matching
  any_matches-replace end = refl
  any_matches-replace (item v vs) = ground (arith, any_matches-replace vs, matches_own prefix file)

  any_matches-push : (vs : Values) → any_matches prefix (push (append prefix file) vs) ≡ true
  unfolding any_matches push
  any_matches-push end = rw (matches_own prefix file)
  any_matches-push (item v vs) = ground (arith, any_matches-push vs)

  replace-replace :
      (vs : Values)
      → let once = replace_matching prefix (append prefix file) vs in
        replace_matching prefix (append prefix file) once ≡ once
  unfolding replace_matching
  replace-replace end = refl
  replace-replace (item v vs) =
      ground (arith, replace-replace vs, drop-drop prefix vs, matches_own prefix file)

  replace-push :
      (vs : Values)
      → any_matches prefix vs ≡ false
      → replace_matching prefix (append prefix file) (push (append prefix file) vs)
        ≡ push (append prefix file) vs
  unfolding replace_matching push any_matches drop_matching
  replace-push end h = rw (matches_own prefix file)
  replace-push (item v vs) h = ground (arith, replace-push vs)

-- The upsert of a router is idempotent: a second one with the same service changes nothing.
pub upsert-idempotent :
    (router file : String) (tags : Values)
    → let once = upsert_router_service_tag router file tags in
      upsert_router_service_tag router file once ≡ once
unfolding upsert_router_service_tag
upsert-idempotent router file tags =
    let p : String = service_prefix router in
    elim (Bool-cases (any_matches p tags)) [
      | inl found ↦ ground (arith, any_matches-replace p file tags, replace-replace p file tags)
      | inr absent ↦ ground (arith, any_matches-push p file tags, replace-push p file tags absent)
    ]

-- ===== src/Octopoes/Requests/Refused.antt =====
-- When the requests of octopoes/octopoes/api/router.py that save and delete are refused.
use nl_kat_coordination.Prelude.{
  map, Bool, true, false, ◌&&◌, not, ◌≡◌, refl, arith, is_some, inl, inr, Option-cases,
}
use nl_kat_coordination.Octopoes.Origins.{Ooi, member}
use nl_kat_coordination.Octopoes.Session.{Store, Outcome, written, failed}
use nl_kat_coordination.Octopoes.Repositories.{get_object, get_origin, remove_ooi}
use nl_kat_coordination.Octopoes.Service.{save_origin}
use nl_kat_coordination.Octopoes.Requests.{Request, serve}

abbrev pub is_failed : Outcome → Bool
is_failed (written w) = false
is_failed (failed f w) = true

-- An observation of an object that is neither stored nor among its results, and the deletion of what
-- is not there
unfoldable pub is_refused : Store → Request → Bool
unfolding get_object get_origin
is_refused s (Request.save_observation o) =
    not (is_some (get_object o.source s.objects))
    && not (member o.source (map (λ (x : Ooi). x.reference) o.result))
is_refused s (Request.save_declaration d) = false
is_refused s (Request.save_affirmation a) = false
is_refused s (Request.delete_object r) = not (is_some (get_object r s.objects))
is_refused s (Request.delete_origin k) = not (is_some (get_origin k s.origins))

-- A request fails exactly where it is refused: an observation whose source is neither stored nor one
-- of its results, and the deletion of an object or an origin that is not stored. No declaration and no
-- affirmation fails.
pub serve-is_refused : (s : Store) (q : Request) → is_failed (serve s q) ≡ is_refused s q
unfolding serve save_origin is_refused remove_ooi
serve-is_refused s (Request.save_observation o) = ground arith
serve-is_refused s (Request.save_declaration d) = ground arith
serve-is_refused s (Request.save_affirmation a) = ground arith
serve-is_refused s (Request.delete_object r) = elim (Option-cases (get_object r s.objects)) [
  | inl n ↦ rw (remove_ooi, n) refl
  | inr (x, n) ↦ rw (remove_ooi, n) refl
]
serve-is_refused s (Request.delete_origin k) = elim (Option-cases (get_origin k s.origins)) [
  | inl n ↦ rw (serve, n) refl
  | inr (x, n) ↦ rw (serve, n) refl
]

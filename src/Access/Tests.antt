-- ===== src/Access/Tests.antt =====
-- Tests of access, replay and ranges.
use mneme_universal_context.Prelude.{
  ℕ, ◌≤◌, ◌<◌, ◌≡◌, refl, true, false, Option, none, some, [], ◌∷◌, arith,
}
use mneme_universal_context.Prelude.Text.{Text, codes, strip}
use mneme_universal_context.Access.Principal.{
  Principal, err, conflict, can_access_project, shows, visible_project_keys,
  visible_project_keys_exact,
}
use mneme_universal_context.Access.Bearer.{
  AuthSettings, bearer_token, authenticate_bearer, Granted, authenticate_bearer-Granted,
}
use mneme_universal_context.Access.Idempotency.{
  Entry, normalized_idempotency_key, replay_idempotent_response, record_idempotent_response,
  replay-record,
}
use mneme_universal_context.Access.Ranges.{parse_blob_range, parse_blob_range_bounds}

abbrev member : Principal
member = record { name = 4; role = 2; project_scopes = 7 ∷ 8 ∷ [] }

visible_project_keys_exact_example :
    (shows (some (7 ∷ 8 ∷ [])) 8 ≡ true → can_access_project member (some 8) ≡ true)
    × (Path (Option ℕ) none none
        → can_access_project member (some 8) ≡ true
        → shows (some (7 ∷ 8 ∷ [])) 8 ≡ true)
unfolding visible_project_keys
visible_project_keys_exact_example =
    visible_project_keys_exact member none (some (7 ∷ 8 ∷ [])) 8 refl (omega arith)

abbrev settings : AuthSettings
settings = record {
  insecure_dev = false;
  static_tokens =
      record { token = codes "abc"; name = 4; role = 2; project_scopes = 7 ∷ 8 ∷ [] } ∷ [];
  auth_token = codes "secret";
}

authenticate_bearer-Granted_example :
    (token : Text) × (bearer_token (some (codes "Bearer abc")) ≡ some token)
    × Granted settings token settings.static_tokens member
unfolding authenticate_bearer bearer_token
authenticate_bearer-Granted_example =
    authenticate_bearer-Granted (some (codes "Bearer abc")) settings member refl refl

abbrev entry : Text → Entry ℕ
entry key = record {
  principal_name = 4;
  endpoint = 1;
  idempotency_key = key;
  request_hash = 77;
  response = 200;
}

replay-record_example :
    replay_idempotent_response 4 1
      (some (codes " k "))
      78
      (entry (codes "j") ∷ entry (codes "k") ∷ [])
    ≡ err conflict
unfolding normalized_idempotency_key replay_idempotent_response record_idempotent_response strip
replay-record_example =
    replay-record 4 1 (some (codes " k ")) (codes "k") 77 78 200 (entry (codes "j") ∷ [])
      (entry (codes "j") ∷ entry (codes "k") ∷ []) refl refl refl

parse_blob_range_bounds_example : (3 ≤ 9) × (9 < 10)
unfolding parse_blob_range strip
parse_blob_range_bounds_example = parse_blob_range_bounds (some (codes "bytes=3-20")) 10 3 9 refl

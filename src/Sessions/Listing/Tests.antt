-- ===== src/Sessions/Listing/Tests.antt =====
-- A listing of a live session and one that Django has dropped.
use jou_tak_web.Prelude.{
  ℕ, String, ◌≡◌, refl, Bool, true, false, ◌&&◌, ◌||◌, none, some, List, [], ◌∷◌, map, ◌==◌, any,
  member, All,
}
use jou_tak_web.Values.{non_empty}
use jou_tak_web.Sessions.Model.{UserSession, Meta, DjangoSession, Request, text}
use jou_tak_web.Sessions.Listing.{SessionRow, is_session, merge_rows}
use jou_tak_web.Sessions.Listing.Complete.{merge_rows_lem}

abbrev hmac : String → String
hmac s = s

abbrev request : Request
request = record { header_token = ""; session_key = "phone"; user_agent = ""; client_ip = none }

abbrev live : List DjangoSession
live = record { session_key = "phone"; expire_date = 90 } ∷ []

abbrev phone : UserSession
phone = record { user = 7; session_key = "phone"; attributes = ("ip", text "10.0.0.1") ∷ [] }

abbrev laptop : Meta
laptop = record {
  user = 7;
  session_key = "laptop";
  session_token_digest = none;
  first_seen = 3;
  last_seen = some 5;
  user_agent = "";
  ip = none;
  revoked_at = none;
  revoked_reason = none;
}

listed_ids :
    map (λ (r : SessionRow). r.id) (merge_rows hmac request live (phone ∷ []) (laptop ∷ []))
    ≡ "laptop" ∷ "phone" ∷ []
unfolding merge_rows jou_tak_web.Prelude.Assoc.insert
listed_ids = refl

shown_as :
    map (λ (r : SessionRow). r.revoked) (merge_rows hmac request live (phone ∷ []) (laptop ∷ []))
    ≡ true ∷ false ∷ []
unfolding merge_rows jou_tak_web.Prelude.Assoc.insert jou_tak_web.Prelude.Assoc.lookup
shown_as = refl

merge_rows_lem_example :
    ((k : String)
      → member k
          (map (λ (r : SessionRow). r.id) (merge_rows hmac request live (phone ∷ []) (laptop ∷ [])))
        ≡ (non_empty k
            && (any (λ (u : UserSession). u.session_key == k) (phone ∷ [])
                || any (λ (m : Meta). m.session_key == k) (laptop ∷ []))))
    × All
        (λ (r : SessionRow). r.revoked ≡ false → any (is_session r.id) live ≡ true)
        (merge_rows hmac request live (phone ∷ []) (laptop ∷ []))
merge_rows_lem_example = merge_rows_lem hmac request live (phone ∷ []) (laptop ∷ [])

-- ===== src/PendingActions/Approval.antt =====
-- The two-person rule: a confirmed call was approved by somebody else, for this very request.
use m_gate.Prelude.{
  Everywhere-nil, List, String, [], arith, eq_iff, lookup, refl, some, true, ℕ, ◌<◌, ◌≡◌, string_eq,
  nat_eq, pair_eq,
}
use m_gate.PendingActions.{
  Action, Status, approved, consumable, consume_approved_action, consume_ok, consumed, pending,
  rejected, status_eq,
}
use m_gate.PendingActions.Lifecycle.{
  Call, IsDecided, IsSound, consumable-IsDecided, history, history-Sound,
}
use m_gate.PendingActions.Once.{consumed_by}

-- The request that was approved.
pub record IsApproved (sha256 : String → String) (user server tool arguments : String) (now : ℕ)
    (doc : Action) : Type 0 where
  pub same_user : doc.user_id ≡ user
  pub same_server : doc.server ≡ server
  pub same_tool : doc.tool ≡ tool
  pub digest : doc.args_fingerprint ≡ sha256 arguments
  pub alive : now < doc.expires_at
  pub status : doc.status ≡ approved
  pub decision : IsDecided doc

is_approved : (s : Status) → status_eq s approved ≡ true → s ≡ approved
is_approved approved h = refl
is_approved pending h = cc
is_approved rejected h = cc
is_approved consumed h = cc

consumable-IsApproved :
    (sha256 : String → String) (tenant user server tool arguments : String) (now : ℕ) (doc : Action)
    → IsSound doc
    → consumable sha256 tenant user server tool arguments now doc ≡ true
    → IsApproved sha256 user server tool arguments now doc
consumable-IsApproved sha256 tenant user server tool arguments now doc s h = record {
  same_user = ground (arith, eq_iff doc.user_id user);
  same_server = ground (arith, eq_iff doc.server server);
  same_tool = ground (arith, eq_iff doc.tool tool);
  digest = ground (arith, eq_iff doc.args_fingerprint (sha256 arguments));
  alive = ground arith;
  status = is_approved doc.status (ground arith);
  decision = consumable-IsDecided sha256 tenant user server tool arguments now doc s h;
}

-- After any history of calls on an empty collection: if a confirmation is consumed, the collection
-- holds its action, which names the user, the server, the tool and the digest of the arguments of
-- this request, has not expired, and is approved, by a decision in time of somebody other than the
-- user.
pub two_person_rule :
    (sha256 : String → String) (calls : List (Call × ℕ))
    (tenant id user server tool arguments : String) (now : ℕ)
    → (consume_approved_action sha256
        (history sha256 calls [])
        tenant
        id
        user
        server
        tool
        arguments
        now).0.0
      ≡ consume_ok
    → (doc : Action) × (lookup (tenant, id) (history sha256 calls []) ≡ some doc)
      × IsApproved sha256 user server tool arguments now doc
two_person_rule sha256 calls tenant id user server tool arguments now h =
    let (doc, found, good, after) =
      consumed_by sha256 (history sha256 calls []) tenant id user server tool arguments now h in
    (
      doc,
      found,
      consumable-IsApproved sha256 tenant user server tool arguments now doc
          (history-Sound sha256 calls [] (Everywhere-nil IsSound) (tenant, id) doc found) good,
    )

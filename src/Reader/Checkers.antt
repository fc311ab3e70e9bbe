-- ===== src/Reader/Checkers.antt =====
-- `MockACLChecker`, and `PostgresACLChecker` with a repository that it is given,
-- backend/app/services/document_reader/acl_checker.py. The reading of a UUID is a parameter.
pub mod Live
use sync_ai_final.Base.{
  if◌then◌else◌, ◌==◌, nat_eq, list_eq, option_eq, pair_eq, any, filter, Text, ℕ, suc, Bool, false,
  not, ◌&&◌, Option, none, some, List, [], ◌∷◌, ◌++◌,
}
use sync_ai_final.Models.{Uuid}
use sync_ai_final.Store.{Repo}
use sync_ai_final.Store.Entries.{principal_can_read_document}

pub record MockChecker : Type 0 where
  pub allowed : List (Text × Text × Text)
  pub call_count : ℕ
  pub history : List (Text × Text × Text × Bool)

abbrev pub same_triple : Text × Text × Text → Text × Text × Text → Bool
same_triple (a, b, c) (x, y, z) = a == x && b == y && c == z

unfoldable pub grant : Text → Text → Text → MockChecker → MockChecker
grant tenant_id doc_id principal_id m =
    let triple : Text × Text × Text = (tenant_id, doc_id, principal_id) in
    record m {
      allowed = if any (same_triple triple) m.allowed then m.allowed else triple ∷ m.allowed;
    }

unfoldable pub revoke : Text → Text → Text → MockChecker → MockChecker
revoke tenant_id doc_id principal_id m = record m {
  allowed =
      filter (λ (t : Text × Text × Text). not (same_triple (tenant_id, doc_id, principal_id) t))
        m.allowed;
}

unfoldable pub clear_checker : MockChecker → MockChecker
clear_checker m = record { allowed = []; call_count = 0; history = [] }

unfoldable pub mock_is_allowed : Text → Text → Text → MockChecker → Bool × MockChecker
mock_is_allowed tenant_id principal_id doc_id m =
    let allowed = any (same_triple (tenant_id, doc_id, principal_id)) m.allowed in
    (
      allowed,
      record {
        allowed = m.allowed;
        call_count = suc m.call_count;
        history = m.history ++ (tenant_id, principal_id, doc_id, allowed) ∷ [];
      },
    )

unfoldable pub postgres_is_allowed :
    (as_uuid : Text → Option Uuid) → Repo → Text → Text → Text → Bool
postgres_is_allowed as_uuid repo tenant_id principal_id doc_id = elim (as_uuid tenant_id) [
  | none ↦ false
  | some tenant ↦ elim (as_uuid principal_id) [
    | none ↦ false
    | some principal ↦ principal_can_read_document tenant principal doc_id repo
  ]
]

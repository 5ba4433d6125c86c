-- ===== src/Runtime/Certification.antt =====
-- core/runtime_bootstrap/src/certification.ts.
pub mod Certified
use imip.Base.{
  ℕ, Bool, true, false, not, ◌||◌, String, List, [], ◌∷◌, ◌++◌, if◌then◌else◌, length, ◌==◌,
}
use imip.Runtime.Types.{
  ComponentResult, CertificationReason, CertificationResult, CertificationStatus, GovernanceRecord,
  not_ready, is_faulted,
}
use imip.Runtime.Board.{Board, record_of, ensure, update_certification, faulted_status}

unfoldable pub blocks : GovernanceRecord → Bool
blocks r = not r.readiness_status.ready || faulted_status r.health_status.status

abbrev pub reasons_for : String → GovernanceRecord → List CertificationReason
reasons_for name r =
    (if r.readiness_status.ready then [] else not_ready name r.readiness_status.reasons ∷ [])
    ++ (if faulted_status r.health_status.status
        then is_faulted name r.health_status.reasons ∷ []
        else [])

pub record Verdict : Type 0 where
  pub board : Board
  pub component_results : List ComponentResult
  pub reasons : List CertificationReason

abbrev pub status_for : Bool → CertificationStatus
status_for true = CertificationStatus.blocked
status_for false = CertificationStatus.certified

-- One round of the loop, on the component of that name.
unfoldable pub certify_one : String → Verdict → Verdict
unfolding blocks
certify_one name v =
    let board = ensure name v.board in
    let r = record_of name board in
    record {
      board = update_certification name (status_for (blocks r)) board;
      component_results =
          v.component_results
          ++ record {
            name = name;
            ready = r.readiness_status.ready;
            health = r.health_status.status;
            blocking = blocks r;
          }
            ∷ [];
      reasons = v.reasons ++ (if blocks r then reasons_for name r else []);
    }

unfoldable pub certify_all : List String → Verdict → Verdict
certify_all [] v = v
certify_all (name ∷ names) v = certify_all names (certify_one name v)

-- `names` are those of the definitions; the answer has the board beside the certificate.
unfoldable pub certify_runtime : List String → ℕ → Board → Board × CertificationResult
unfolding certify_all
certify_runtime names now board =
    let v = certify_all names (record { board = board; component_results = []; reasons = [] }) in
    (
      v.board,
      record {
        certified = length v.reasons == 0;
        checked_at = now;
        component_results = v.component_results;
        reasons = v.reasons;
      },
    )

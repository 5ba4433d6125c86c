-- ===== src/Runtime/Certification/Certified.antt =====
-- What a certificate says of the board it was made from.
use imip.Base.{
  ◌↔◌, ℕ, ◌+◌, ◌≤◌, ◌≡◌, refl, sym, ap, ◌∙◌, true, false, not, ◌||◌, String, List, [], ◌∷◌, ◌++◌,
  map, if◌then◌else◌, ◌===◌, ◌==◌, ===_iff, ===-refl, arith, length, length-append, All, Bool-cases,
  inl, inr,
}
use mathlib.Core.List.{append_assoc, append-nil}
use imip.Runtime.Types.{CertificationStatus, GovernanceRecord, ComponentResult}
use imip.Runtime.Board.{
  faulted_status, Board, record_of, ensure, update_certification, certify_record,
}
use imip.Runtime.Board.Eligible.{record_of-update}
use imip.Runtime.Certification.{
  blocks, reasons_for, Verdict, status_for, certify_one, certify_all, certify_runtime,
}

-- What certification says of one component.
unfoldable pub result_for : Board → String → ComponentResult
unfolding blocks
result_for board name = record {
  name = name;
  ready = (record_of name board).readiness_status.ready;
  health = (record_of name board).health_status.status;
  blocking = blocks (record_of name board);
}

-- Two boards agree on what certification reads.
abbrev pub Agrees : Board → Board → Type 0
Agrees b c =
    (n : String)
    → ((record_of n b).readiness_status ≡ (record_of n c).readiness_status)
      × ((record_of n b).health_status ≡ (record_of n c).health_status)

record_of-certified :
    (m n : String) (s : CertificationStatus) (board : Board)
    → record_of n (update_certification m s (ensure m board))
      ≡ (if m === n then certify_record s (record_of m board) else record_of n board)
record_of-certified m n s board =
    record_of-update m n (certify_record s) (ensure m board) ∙ (elim (Bool-cases (m === n)) [
      | inl e ↦ rw (e, record_of-update m m (λ r. r) board, ===-refl m) refl
      | inr e ↦ rw (e, record_of-update m n (λ r. r) board, e) refl
    ])

certify-fields :
    (m n : String) (s : CertificationStatus) (board : Board)
    → ((record_of n (update_certification m s (ensure m board))).readiness_status
        ≡ (record_of n board).readiness_status)
      × ((record_of n (update_certification m s (ensure m board))).health_status
          ≡ (record_of n board).health_status)
certify-fields m n s board = elim (Bool-cases (m === n)) [
  | inl e ↦ (
    ap (λ r. r.readiness_status) (record_of-certified m n s board)
        ∙ rw e (ap (λ k. (record_of k board).readiness_status) ((===_iff m n).0 e)),
    ap (λ r. r.health_status) (record_of-certified m n s board)
        ∙ rw e (ap (λ k. (record_of k board).health_status) ((===_iff m n).0 e)),
  )
  | inr e ↦ (
    ap (λ r. r.readiness_status) (record_of-certified m n s board) ∙ rw e refl,
    ap (λ r. r.health_status) (record_of-certified m n s board) ∙ rw e refl,
  )
]

certify_one-Agrees :
    (m : String) (v : Verdict) (board : Board)
    → Agrees v.board board
    → Agrees (certify_one m v).board board
unfolding certify_one
certify_one-Agrees m v board h n =
    let kept = certify-fields m n (status_for (blocks (record_of m (ensure m v.board)))) v.board in
    (kept.0 ∙ (h n).0, kept.1 ∙ (h n).1)

blocks-Agrees :
    (b c : Board) (n : String) → Agrees b c → blocks (record_of n b) ≡ blocks (record_of n c)
unfolding blocks
blocks-Agrees b c n h =
    ap (λ r. not r.ready || faulted_status (record_of n b).health_status.status) (h n).0
    ∙ ap (λ x. not (record_of n c).readiness_status.ready || faulted_status x.status) (h n).1

abbrev ReasonsIff : Board → List String → Verdict → Verdict → Type 0
ReasonsIff board names v w =
    (length w.reasons ≡ 0
      → (length v.reasons ≡ 0) × All (λ n. blocks (record_of n board) ≡ false) names)
    × (length v.reasons ≡ 0
        → All (λ n. blocks (record_of n board) ≡ false) names
        → length w.reasons ≡ 0)

ensure-Agrees : (m : String) (b board : Board) → Agrees b board → Agrees (ensure m b) board
ensure-Agrees m b board h n = elim (Bool-cases (m === n)) [
  | inl e ↦ (
    ap (λ r. r.readiness_status) (record_of-update m n (λ r. r) b)
        ∙ rw e (ap (λ k. (record_of k b).readiness_status) ((===_iff m n).0 e))
        ∙ (h n).0,
    ap (λ r. r.health_status) (record_of-update m n (λ r. r) b)
        ∙ rw e (ap (λ k. (record_of k b).health_status) ((===_iff m n).0 e))
        ∙ (h n).1,
  )
  | inr e ↦ (
    ap (λ r. r.readiness_status) (record_of-update m n (λ r. r) b) ∙ rw e (h n).0,
    ap (λ r. r.health_status) (record_of-update m n (λ r. r) b) ∙ rw e (h n).1,
  )
]

true-not_false : true ≡ false → ⊥
true-not_false h = cc

reasons_for-blocks :
    (m : String) (r : GovernanceRecord) → blocks r ≡ true → 1 ≤ length (reasons_for m r)
unfolding blocks
reasons_for-blocks m r h = elim (Bool-cases r.readiness_status.ready) [
  | inl e ↦ elim (Bool-cases (faulted_status r.health_status.status)) [
    | inl f ↦ rw (e, f) (omega arith)
    | inr f ↦ cc (rw (e, f) at h)
  ]
  | inr e ↦ rw e (omega arith)
]

result_for-Agrees : (b c : Board) (n : String) → Agrees b c → result_for b n ≡ result_for c n
unfolding result_for
result_for-Agrees b c n h =
    ap
      (λ x. record {
        name = n;
        ready = x.ready;
        health = (record_of n b).health_status.status;
        blocking = not x.ready || faulted_status (record_of n b).health_status.status;
      })
      (h n).0
    ∙ ap
        (λ x. record {
          name = n;
          ready = (record_of n c).readiness_status.ready;
          health = x.status;
          blocking = not (record_of n c).readiness_status.ready || faulted_status x.status;
        })
        (h n).1

one_result :
    (m : String) (v : Verdict) (board : Board)
    → Agrees v.board board
    → (certify_one m v).component_results ≡ v.component_results ++ result_for board m ∷ []
unfolding certify_one result_for
one_result m v board h =
    ap (λ r. v.component_results ++ r ∷ [])
      (result_for-Agrees (ensure m v.board) board m (ensure-Agrees m v.board board h))

one_reasons :
    (m : String) (v : Verdict) (board : Board)
    → Agrees v.board board
    → (length (certify_one m v).reasons ≡ 0
        → (length v.reasons ≡ 0) × (blocks (record_of m board) ≡ false))
      × (length v.reasons ≡ 0
          → blocks (record_of m board) ≡ false
          → length (certify_one m v).reasons ≡ 0)
unfolding certify_one
one_reasons m v board h =
    let r = record_of m (ensure m v.board) in
    let same = blocks-Agrees (ensure m v.board) board m (ensure-Agrees m v.board board h) in
    elim (Bool-cases (blocks r)) [
      | inl e ↦ (
        (λ k. absurd (omega (arith, k, sym (more e), reasons_for-blocks m r e))),
        (λ _ f. absurd (true-not_false (sym e ∙ same ∙ f))),
      )
      | inr e ↦ ((λ k. (sym (none_more e) ∙ k, sym same ∙ e)), (λ k _. none_more e ∙ k))
    ]
  where
    more :
        blocks (record_of m (ensure m v.board)) ≡ true
        → length (certify_one m v).reasons
          ≡ length v.reasons + length (reasons_for m (record_of m (ensure m v.board)))
    more e = rw (e, certify_one) (length-append v.reasons _)

    none_more :
        blocks (record_of m (ensure m v.board)) ≡ false
        → length (certify_one m v).reasons ≡ length v.reasons
    none_more e = rw (e, certify_one) (ap length (append-nil v.reasons))

certify_all_lem :
    (names : List String) (v : Verdict) (board : Board)
    → Agrees v.board board
    → (ReasonsIff board names v (certify_all names v))
      × ((certify_all names v).component_results
          ≡ v.component_results ++ map (result_for board) names)
      × Agrees (certify_all names v).board board
unfolding certify_all
certify_all_lem [] v board h =
    (((λ e. (e, tt)), (λ e _. e)), sym (append-nil v.component_results), h)
certify_all_lem (m ∷ names) v board h =
    let rest = certify_all_lem names (certify_one m v) board (certify_one-Agrees m v board h) in
    let one = one_reasons m v board h in
    (
      (
        (λ e. let (a, b) = rest.0.0 e in ((one.0 a).0, ((one.0 a).1, b))),
        (λ e hs. rest.0.1 (one.1 e hs.0) hs.1),
      ),
      rest.1
          ∙ (ap (λ rs. rs ++ map (result_for board) names) (one_result m v board h)
              ∙ append_assoc v.component_results (result_for board m ∷ [])
                  (map (result_for board) names)),
      rest.2,
    )

-- The certificate has one result for each component named, in order, which says whether its record
-- on the board is ready and not faulted; it is granted exactly if none of them blocks; and making
-- it changes no readiness and no health on the board.
pub certify_runtime_lem :
    (names : List String) (now : ℕ) (board : Board)
    → ((certify_runtime names now board).1.component_results ≡ map (result_for board) names)
      × (((certify_runtime names now board).1.certified ≡ true)
          ↔ All (λ n. blocks (record_of n board) ≡ false) names)
      × Agrees (certify_runtime names now board).0 board
unfolding certify_runtime
certify_runtime_lem names now board =
    let v : Verdict = record { board = board; component_results = []; reasons = [] } in
    let all = certify_all_lem names v board (λ n. (refl, refl)) in
    (all.1, ((λ e. (all.0.0 (is_zero e)).1), (λ hs. zero_is (all.0.1 refl hs))), all.2)
  where
    is_zero : {n : ℕ} → (n == 0) ≡ true → n ≡ 0
    is_zero e = ground arith

    zero_is : {n : ℕ} → n ≡ 0 → (n == 0) ≡ true
    zero_is e = ground arith

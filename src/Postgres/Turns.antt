-- ===== src/Postgres/Turns.antt =====
-- Claim, ConfirmCancel, PromoteNext, RequestCancel and RecoverStale of
-- repository/postgres/repository.go keep the invariant of the table.
use orderedjob.Prelude.{
  ◌≡◌, inl, inr, refl, sym, subst, ℕ, suc, String, Bool, true, false, ◌&&◌, ◌||◌, not, Option, none,
  some, List, [], ◌∷◌, In, arith, Bool-cases,
}
use orderedjob.Int64.{ℤ, pos, negsuc, inc64}
use orderedjob.Lifecycle.{
  Status, Status-discrete, pending, blocked, processing, completed, failed, dead_lettered, retrying,
  same,
}
use orderedjob.Memory.State.{continues}
use orderedjob.Sql.{null_or_text}
use orderedjob.Sql.Schema.{Row, Table, has_id, is_done}
use orderedjob.Sql.Rows.{select_where-In}
use orderedjob.Sql.Sorting.{limit-In, order_by-In}
use orderedjob.Sql.Order.{IsLinked, Moves, has_started, has_begun, is_some}
use orderedjob.Sql.Keeps.{update-IsLinked, with_tx-keeps}
use orderedjob.Sql.Moving.{
  begun-Moves, waiting-Moves, starting-Moves, running_begun, running_undone,
}
use orderedjob.Postgres.Lease.{holds_lease, promote_next, confirm_cancel}
use orderedjob.Postgres.Claim.{is_claimable, earlier, candidates, claimed_row, claim_first, claim}
use orderedjob.Postgres.Admin.{
  is_active, cancelling_row, request_cancel, is_stale, is_same_stale, stale_rows, recovered_row,
  recover_over, recover_rows, recover_stale,
}
use orderedjob.Postgres.Steps.{update_leased-IsLinked, open_place-IsLinked}

waiting_undone :
    (a : Row) → (same a.status pending || same a.status retrying) ≡ true → is_done a ≡ false
unfolding is_done Status-discrete
waiting_undone a h = elim (Bool-cases (same a.status pending)) [
  | inl e ↦ ground arith
  | inr e ↦ ground arith
]

-- The start of a claimed row.
started-Moves :
    (t : Table) (worker : String) (lease : ℤ) (now : ℕ) (a : Row)
    → is_claimable t now a ≡ true
    → Moves t a (claimed_row worker lease now a)
unfolding is_claimable claimed_row
started-Moves t worker lease now a h =
    starting-Moves t a _ _ refl refl refl refl (ground arith) (waiting_undone a (ground arith))

pub has_id-same : (a : Row) (id : ℕ) → has_id id a ≡ true → a.id ≡ id
unfolding has_id
has_id-same a id h = ground arith

pub candidates-In :
    (locked : Row → Bool) (t : Table) (now : ℕ) (c : Row)
    → In c (candidates locked t now)
    → In c t × (is_claimable t now c ≡ true) × (locked c ≡ false)
unfolding candidates
candidates-In locked t now c m =
    let (n, h) =
      select_where-In (λ r. is_claimable t now r && not (locked r)) t c
        (order_by-In earlier _ c (limit-In 1 _ c m)) in
    (n, ground arith, ground arith)

pub claim_first-IsLinked :
    (locked : Row → Bool) (t : Table) (worker : String) (lease : ℤ) (now : ℕ)
    → IsLinked t
    → IsLinked (claim_first worker lease now t (candidates locked t now)).0
claim_first-IsLinked locked t worker lease now l =
    on (candidates locked t now) (candidates-In locked t now)
  where
    on :
        (cs : List Row)
        → ((c : Row) → In c cs → In c t × (is_claimable t now c ≡ true) × (locked c ≡ false))
        → IsLinked (claim_first worker lease now t cs).0
    on [] f = l
    on (c ∷ _) f =
        let (m, h, _) = f c (inl refl) in
        update-IsLinked (has_id c.id) (claimed_row worker lease now) t l λ a n e.
          started-Moves t worker lease now a (
            subst (λ r. is_claimable t now r ≡ true) (sym (l.one_id a c n m (has_id-same a c.id e)))
              h)

pub claim-IsLinked :
    (locked : Row → Bool) (t : Table) (worker : String) (lease : ℤ) (now : ℕ)
    → IsLinked t
    → IsLinked (claim locked t worker lease now).0
unfolding claim
claim-IsLinked locked t worker lease now l =
    with_tx-keeps IsLinked _ t l (claim_first-IsLinked locked t worker lease now l)

pub owned_some : (o : Option String) (w : String) → null_or_text o w ≡ true → is_some o ≡ true
owned_some none w h = ground arith
owned_some (some x) w h = refl

-- A cancelled row keeps its start.
pub confirm_cancel-IsLinked :
    (t : Table) (id : ℕ) (worker : String) (gen : ℤ) (now : ℕ)
    → ((a : Row) → In a t → a.id ≡ id → is_done a ≡ false)
    → IsLinked t
    → IsLinked (confirm_cancel t id worker gen now).0
unfolding confirm_cancel holds_lease has_started
confirm_cancel-IsLinked t id worker gen now undone l = update_leased-IsLinked _ _ t l λ a m h.
    record {
      same_id = refl;
      same_chain = refl;
      same_place = refl;
      stays_done = λ k. absurd (ground (arith, undone a m (has_id-same a id (ground arith))));
      starts = λ k. inl k;
      dates = λ p. (λ k. p.1 (owned_some a.worker_id worker (ground arith)), p.1);
    }

pub promote_next-IsLinked :
    (t : Table) (chain : String) (seq : ℤ) (now : ℕ)
    → IsLinked t
    → IsLinked (promote_next t chain seq now)
unfolding promote_next
promote_next-IsLinked t chain seq now l = open_place-IsLinked t chain (inc64 seq) now l

pub active_undone :
    (a : Row)
    → (same a.status pending
        || (same a.status retrying || (same a.status blocked || same a.status processing)))
      ≡ true
    → is_done a ≡ false
unfolding is_done Status-discrete
active_undone a h = on a.status h
  where
    on :
        (s : Status)
        → (same s pending || (same s retrying || (same s blocked || same s processing))) ≡ true
        → (same s completed
            || ((same s failed || same s dead_lettered) && continues a.ordering_mode))
          ≡ false
    on pending h = refl
    on retrying h = refl
    on blocked h = refl
    on processing h = refl
    on _ h = absurd (ground arith)

pub request_cancel-IsLinked :
    (t : Table) (id now : ℕ) → IsLinked t → IsLinked (request_cancel t id now).0
unfolding request_cancel is_active cancelling_row has_begun
request_cancel-IsLinked t id now l =
    update-IsLinked _ _ t l
      λ a m h. waiting-Moves t a _ refl refl refl refl refl refl (active_undone a (ground arith))

recover_over-IsLinked :
    (policy : Option (ℤ → ℕ)) (now : ℕ) (ss : List Row) (n : ℕ) (t : Table)
    → IsLinked t
    → IsLinked (recover_over policy now ss n t).0
unfolding recover_over is_same_stale is_stale recovered_row
recover_over-IsLinked policy now [] n t l = l
recover_over-IsLinked policy now (s ∷ ss) n t l = recover_over-IsLinked policy now ss (suc n) _ (
    update-IsLinked _ _ t l λ a m h.
      begun-Moves t a _ refl refl refl refl refl (running_begun a (ground arith))
        (λ k. absurd (ground (arith, running_undone a (ground arith)))))

pub recover_stale-IsLinked :
    (locked : Row → Bool) (t : Table) (max : ℤ) (policy : Option (ℤ → ℕ)) (now : ℕ)
    → IsLinked t
    → IsLinked (recover_stale locked t max policy now).0
unfolding recover_stale
recover_stale-IsLinked locked t (pos max) policy now l =
    with_tx-keeps IsLinked (recover_rows locked policy now (pos max)) t l
      (recover_over-IsLinked policy now (stale_rows locked max now t) 0 t l)
recover_stale-IsLinked locked t (negsuc max) policy now l =
    with_tx-keeps IsLinked (recover_rows locked policy now (negsuc max)) t l l

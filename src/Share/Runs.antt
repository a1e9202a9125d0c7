-- ===== src/Share/Runs.antt =====
-- The life of a share partition (internal/queuelog/share.go): any calls, in any order.
use boltq.Prelude.{
  ℕ, suc, ◌≤◌, ◌≡◌, refl, ◌∙◌, Bool, true, false, not, ◌&&◌, ◌||◌, List, [], ◌∷◌, Option, none,
  some, ltb, ◌==◌, nat_eq, arith, Bool-cases, inl, inr, GoString, str_eq,
}
use boltq.Prelude.Dict.{get, has, is_some}
use boltq.Share.{
  Entry, SharePartition, ShareConfig, CursorKey, rejected, delivered_without_ack, Outside, Log,
  is_acquired, open_share_partition, retire, dead_letter,
}
use boltq.Share.Settling.{ack, nack, ack_found, nack_found, nack_held}
use boltq.Share.Acquiring.{acquire}
use boltq.Share.Releasing.{release_all, release_consumer, release_each, release_found, close}
use boltq.Share.Window.{
  IsWindow, advance-IsWindow, retire-IsWindow, release-IsWindow, dead_letter-IsWindow,
}
use boltq.Share.Settle.{
  finished, leased_to, release-Settled, left_by_nack, ack-branches, nack-branches,
}
use boltq.Share.Reap.{doomed}
use boltq.Share.Acquire.{acquire_exclusive}

pub data Op : Type 0 where
  acquires : GoString → ℕ → ℕ → Log → Op
  acks : GoString → ℕ → Op
  nacks : GoString → ℕ → Bool → Op
  releases_all : Op
  releases : GoString → Op
  closes : Op

module _ {E : Type 0} where
  release_found-keeps :
      (p : Entry → Bool) (o : Option Entry) (seq n : ℕ) (sp : SharePartition E)
      → get sp.entries seq ≡ o
      → IsWindow sp
      → IsWindow (release_found p o seq (n, sp)).1
        × ((s : ℕ) → finished (release_found p o seq (n, sp)).1 s ≡ finished sp s)
  unfolding release_found
  release_found-keeps p none seq n sp found w = (w, λ s. refl)
  release_found-keeps p (some e) seq n sp found w = elim (Bool-cases (is_acquired e.state && p e)) [
    | inl q ↦
        rw q
          (release-IsWindow sp seq e (rw found) w, λ s. ground (arith, release-Settled sp seq e s))
    | inr q ↦ rw q (w, λ s. refl)
  ]

  release_each-keeps :
      (p : Entry → Bool) (es : List (ℕ × Entry)) (n : ℕ) (sp : SharePartition E)
      → IsWindow sp
      → IsWindow (release_each p es (n, sp)).1
        × ((s : ℕ) → finished (release_each p es (n, sp)).1 s ≡ finished sp s)
  unfolding release_each
  release_each-keeps p [] n sp w = (w, λ s. refl)
  release_each-keeps p ((seq, e) ∷ es) n sp w =
      let mid = release_found p (get sp.entries seq) seq (n, sp) in
      let one = release_found-keeps p (get sp.entries seq) seq n sp refl w in
      let rest = release_each-keeps p es mid.0 mid.1 one.0 in (rest.0, λ s. rest.1 s ∙ one.1 s)

  pub open-IsWindow :
      (key : CursorKey) (log : Log) (has_cursors : Bool) (committed : Option ℕ) (cfg : ShareConfig)
      (env : E)
      → IsWindow (open_share_partition key log has_cursors committed cfg env)
  unfolding open_share_partition
  open-IsWindow key log has_cursors committed cfg env = record {
    positive = ground (arith, log.numbered);
    ordered = omega arith;
    bounded = omega arith;
    entry_in = λ s h. unfold get in ground (arith, h);
    retired_in = λ s h. unfold get in ground (arith, h);
    covered = λ s lo hi. absurd (omega (arith, lo, hi));
    waiting = λ s e h idle. unfold get in ground (arith, h);
  }

  nothing-finished :
      (key : CursorKey) (log : Log) (has_cursors : Bool) (committed : Option ℕ) (cfg : ShareConfig)
      (env : E) (s : ℕ)
      → let start = open_share_partition key log has_cursors committed cfg env in
        start.base ≤ s → finished start s ≡ false
  unfolding open_share_partition get
  nothing-finished key log has_cursors committed cfg env s lo = ground (arith, lo)

module _ {E : Type 0} ⦃out : Outside E⦄ where
  unfoldable pub step : SharePartition E → Op → SharePartition E
  step sp (acquires consumer max now log) = (acquire sp consumer max now log).1
  step sp (acks consumer seq) = (ack sp consumer seq).1
  step sp (nacks consumer seq requeue) = (nack sp consumer seq requeue).1
  step sp releases_all = (release_all sp).1
  step sp (releases consumer) = (release_consumer sp consumer).1
  step sp closes = close sp

  pub run : SharePartition E → List Op → SharePartition E
  unfolding step
  run sp [] = sp
  run sp (op ∷ ops) = run (step sp op) ops

  -- Whether a call may finish the sequence `s`: its holder acknowledges it, its holder's nack makes
  -- the dead-letter route take it, its lease has expired after the last delivery allowed, or the log
  -- no longer has it.
  abbrev pub may_finish : SharePartition E → Op → ℕ → Bool
  may_finish sp (acquires consumer max now log) s =
      doomed now sp (get sp.entries s) || ltb s log.first_seq
  may_finish sp (acks consumer seq) s = (seq == s) && leased_to sp consumer seq
  may_finish sp (nacks consumer seq requeue) s =
      (seq == s)
      && leased_to sp consumer seq
      && not (is_some (left_by_nack sp (get sp.entries seq) requeue))
  may_finish sp releases_all s = false
  may_finish sp (releases consumer) s = false
  may_finish sp closes s = false

  ack_found-IsWindow :
      (o : Option Entry) (sp : SharePartition E) (consumer : GoString) (seq : ℕ)
      → get sp.entries seq ≡ o
      → IsWindow sp
      → IsWindow (ack_found o sp consumer seq).1
  unfolding ack_found
  ack_found-IsWindow none sp consumer seq found w = w
  ack_found-IsWindow (some e) sp consumer seq found w =
      let gone : SharePartition E = record (retire sp seq) { acked = suc sp.acked } in
      let wg : IsWindow gone = unfold retire in retire-IsWindow sp seq (rw found) w in
      ground (arith, w, advance-IsWindow gone wg)

  ack-IsWindow :
      (sp : SharePartition E) (consumer : GoString) (seq : ℕ)
      → IsWindow sp
      → IsWindow (ack sp consumer seq).1
  unfolding ack
  ack-IsWindow sp consumer seq w =
      ground (arith, w, ack_found-IsWindow (get sp.entries seq) sp consumer seq refl w)

  nack_found-IsWindow :
      (o : Option Entry) (sp : SharePartition E) (consumer : GoString) (seq : ℕ) (requeue : Bool)
      → get sp.entries seq ≡ o
      → IsWindow sp
      → IsWindow (nack_found o sp consumer seq requeue).1
  unfolding nack_found nack_held
  nack_found-IsWindow none sp consumer seq requeue found w = w
  nack_found-IsWindow (some e) sp consumer seq requeue found w =
      let counted : SharePartition E = record sp { nacked = suc sp.nacked } in
      let held : has sp.entries seq ≡ true = rw found in
      ground (
        arith,
        w,
        release-IsWindow counted seq e held w,
        advance-IsWindow (dead_letter counted seq e rejected)
            (dead_letter-IsWindow counted seq e rejected held w),
        advance-IsWindow (dead_letter counted seq e (delivered_without_ack e.count))
            (dead_letter-IsWindow counted seq e (delivered_without_ack e.count) held w),
      )

  nack-IsWindow :
      (sp : SharePartition E) (consumer : GoString) (seq : ℕ) (requeue : Bool)
      → IsWindow sp
      → IsWindow (nack sp consumer seq requeue).1
  unfolding nack
  nack-IsWindow sp consumer seq requeue w =
      ground (arith, w, nack_found-IsWindow (get sp.entries seq) sp consumer seq requeue refl w)

  ack-closed :
      (sp : SharePartition E) (consumer : GoString) (seq : ℕ)
      → sp.closed ≡ true
      → (ack sp consumer seq).1 ≡ sp
  unfolding ack
  ack-closed sp consumer seq c = ground (arith, c)

  nack-closed :
      (sp : SharePartition E) (consumer : GoString) (seq : ℕ) (requeue : Bool)
      → sp.closed ≡ true
      → (nack sp consumer seq requeue).1 ≡ sp
  unfolding nack
  nack-closed sp consumer seq requeue c = ground (arith, c)

  ack-finishes :
      (sp : SharePartition E) (consumer : GoString) (seq : ℕ)
      → IsWindow sp
      → (s : ℕ) → finished (ack sp consumer seq).1 s ≡ true
      → (finished sp s || may_finish sp (acks consumer seq) s) ≡ true
  ack-finishes sp consumer seq w s h = elim (Bool-cases sp.closed) [
    | inl c ↦ ground (arith, rw (ack-closed sp consumer seq c) at h)
    | inr c ↦ elim (Bool-cases (leased_to sp consumer seq)) [
      | inl own ↦ ground (arith, h, own, ((ack-branches sp consumer seq w c).0 own).0 s)
      | inr other ↦ ground (arith, rw ((ack-branches sp consumer seq w c).1 other).0 at h)
    ]
  ]

  nack-finishes :
      (sp : SharePartition E) (consumer : GoString) (seq : ℕ) (requeue : Bool)
      → IsWindow sp
      → (s : ℕ) → finished (nack sp consumer seq requeue).1 s ≡ true
      → (finished sp s || may_finish sp (nacks consumer seq requeue) s) ≡ true
  nack-finishes sp consumer seq requeue w s h = elim (Bool-cases sp.closed) [
    | inl c ↦ ground (arith, rw (nack-closed sp consumer seq requeue c) at h)
    | inr c ↦ elim (Bool-cases (leased_to sp consumer seq)) [
      | inl own ↦ ground (arith, h, own, (nack-branches sp consumer seq requeue w c).0 own s)
      | inr other ↦ ground (arith, rw ((nack-branches sp consumer seq requeue w c).1 other).0 at h)
    ]
  ]

  unfoldable pub was_finished : SharePartition E → List Op → ℕ → Bool
  unfolding step
  was_finished sp [] s = false
  was_finished sp (op ∷ ops) s = may_finish sp op s || was_finished (step sp op) ops s

  step-keeps :
      (sp : SharePartition E) (op : Op)
      → IsWindow sp
      → IsWindow (step sp op)
        × ((s : ℕ) → finished (step sp op) s ≡ true → (finished sp s || may_finish sp op s) ≡ true)
  unfolding step release_all release_consumer close
  step-keeps sp (acquires consumer max now log) w =
      let a = acquire_exclusive sp consumer max now log w in
      (a.window, λ s h. ground (arith, a.finishes s h))
  step-keeps sp (acks consumer seq) w =
      (ack-IsWindow sp consumer seq w, ack-finishes sp consumer seq w)
  step-keeps sp (nacks consumer seq requeue) w =
      (nack-IsWindow sp consumer seq requeue w, nack-finishes sp consumer seq requeue w)
  step-keeps sp releases_all w =
      let r = release_each-keeps (λ e. true) sp.entries 0 sp w in
      (r.0, λ s h. ground (arith, r.1 s, h))
  step-keeps sp (releases consumer) w =
      let r = release_each-keeps (λ e. str_eq e.holder consumer) sp.entries 0 sp w in
      (r.0, λ s h. ground (arith, r.1 s, h))
  step-keeps sp closes w = (w, λ s h. ground (arith, h))

  run-keeps :
      (sp : SharePartition E) (ops : List Op) (s : ℕ)
      → IsWindow sp
      → IsWindow (run sp ops)
        × (finished (run sp ops) s ≡ true → (finished sp s || was_finished sp ops s) ≡ true)
  unfolding run was_finished
  run-keeps sp [] s w = (w, λ h. ground (arith, h))
  run-keeps sp (op ∷ ops) s w =
      let one = step-keeps sp op w in
      let rest = run-keeps (step sp op) ops s one.0 in
      (rest.0, λ h. ground (arith, rest.1 h, one.1 s))

  -- At least once: through any calls on a share partition from its opening on, a record that was not
  -- below the position it opened at is finished only if at some point its holder acknowledged it,
  -- the dead-letter route took it on its holder's nack, its lease had expired after the last
  -- delivery allowed, or the log no longer had it. The window is in order at the end, so that a
  -- record of it that is not finished still has its entry and is leased or waits for redelivery.
  pub at_least_once :
      (key : CursorKey) (log : Log) (has_cursors : Bool) (committed : Option ℕ) (cfg : ShareConfig)
      (env : E) (ops : List Op) (s : ℕ)
      → let start = open_share_partition key log has_cursors committed cfg env in
        start.base ≤ s
        → was_finished start ops s ≡ false
        → IsWindow (run start ops) × (finished (run start ops) s ≡ false)
  at_least_once key log has_cursors committed cfg env ops s lo never =
      let start = open_share_partition key log has_cursors committed cfg env in
      let kept = run-keeps start ops s (open-IsWindow key log has_cursors committed cfg env) in
      (
        kept.0,
        elim (Bool-cases (finished (run start ops) s)) [
          | inl done ↦ absurd (
              ground (
                arith,
                kept.1 done,
                never,
                lo,
                nothing-finished key log has_cursors committed cfg env s,
              ))
          | inr open_still ↦ open_still
        ],
      )

-- ===== src/Share/Settle.antt =====
-- How a share partition settles a delivery: Ack and Nack (internal/queuelog/share.go).
use boltq.Prelude.{
  ℕ, suc, ◌≡◌, ◌≢◌, refl, ap, ◌∙◌, Bool, true, false, not, ◌&&◌, ◌||◌, Option, none, some, ltb,
  ◌==◌, if◌then◌else◌, nat_eq, arith, Bool-cases, inl, inr, GoString, str_eq, Cases, by_cases,
}
use boltq.Prelude.Dict.{get, has, size, get-put, get-remove, is_some}
use boltq.Share.{
  Entry, SharePartition, Outside, Reason, rejected, delivered_without_ack, Error, is_acquired,
  released, release, retire, slide, advance, commit_base, dead_letter,
}
use boltq.Share.Settling.{exhausted, ack, ack_found, nack, nack_found, nack_held}
use boltq.Share.Slide.{slide-passes, slide-stops}
use boltq.Share.Window.{IsWindow, retire-IsWindow, dead_letter-IsWindow}

abbrev pub leased_entry : Option Entry → GoString → Bool
leased_entry none consumer = false
leased_entry (some e) consumer = is_acquired e.state && str_eq e.holder consumer

module _ {E : Type 0} where
  -- A sequence that no consumer will see again.
  abbrev pub finished : SharePartition E → ℕ → Bool
  finished sp s = ltb s sp.base || has sp.retired s

  abbrev pub leased_to : SharePartition E → GoString → ℕ → Bool
  leased_to sp consumer seq = leased_entry (get sp.entries seq) consumer

  -- What a sequence's entry and the sequences finished become when `seq` is retired or released.
  abbrev pub Settled : SharePartition E → ℕ → Option Entry → SharePartition E → Type 0
  Settled sp seq left end =
      (s : ℕ)
      → (get end.entries s ≡ (if seq == s then left else get sp.entries s))
        × (finished end s ≡ (finished sp s || ((seq == s) && not (is_some left))))

  pub retire-Settled : (sp : SharePartition E) (seq : ℕ) → Settled sp seq none (retire sp seq)
  unfolding retire
  retire-Settled sp seq s = ground (arith, get-remove sp.entries seq s, get-put sp.retired seq tt s)

  pub release-Settled :
      (sp : SharePartition E) (seq : ℕ) (e : Entry)
      → Settled sp seq (some (released e)) (release sp seq e)
  unfolding release
  release-Settled sp seq e s = ground (arith, get-put sp.entries seq (released e) s)

module _ {E : Type 0} ⦃out : Outside E⦄ where
  -- Sliding the base changes neither which sequences are finished nor the entries, and the base is
  -- then the first sequence that is not finished.
  pub advance_exact :
      (sp : SharePartition E)
      → IsWindow sp
      → ((s : ℕ) → finished (advance sp).1 s ≡ finished sp s)
        × ((advance sp).1.entries ≡ sp.entries)
        × (finished (advance sp).1 (advance sp).1.base ≡ false)
  unfolding advance commit_base
  advance_exact sp w =
      let stops = slide-stops (size sp.retired) sp.base sp.retired (omega arith) in
      elim (Bool-cases
        ((slide (size sp.retired) sp.base sp.retired).0 == sp.base || not sp.has_cursors)) [
          | inl still ↦ rw still (
            λ s. ground (
              arith,
              slide-passes (size sp.retired) sp.base s sp.retired
                  (λ t held. (w.retired_in t held).0),
            ),
            refl,
            ground (arith, stops),
          )
          | inr moved ↦ rw moved (
            λ s. ground (
              arith,
              slide-passes (size sp.retired) sp.base s sp.retired
                  (λ t held. (w.retired_in t held).0),
            ),
            refl,
            ground (arith, stops),
          )
        ]

  advance-Settled :
      (sp mid : SharePartition E) (seq : ℕ) (left : Option Entry)
      → IsWindow mid
      → Settled sp seq left mid
      → Settled sp seq left (advance mid).1
  advance-Settled sp mid seq left w h s =
      let a = advance_exact mid w in (ap (λ d. get d s) a.1 ∙ (h s).0, a.0 s ∙ (h s).1)

  -- Whether the dead-letter route takes a record.
  abbrev pub accepted : SharePartition E → Entry → Reason → Bool
  accepted sp e reason =
      not sp.cfg.has_dead_letter || (out.dead_letter sp.env sp.key e.rec reason).0

  pub dead_letter-Settled :
      (sp : SharePartition E) (seq : ℕ) (e : Entry) (reason : Reason)
      → Settled sp seq
          (if accepted sp e reason then none else some (released e))
          (dead_letter sp seq e reason)
  unfolding dead_letter
  dead_letter-Settled sp seq e reason s =
      let env = (out.dead_letter sp.env sp.key e.rec reason).1 in
      ground (
        arith,
        retire-Settled (record sp { dlq_count = suc sp.dlq_count }) seq s,
        retire-Settled (record sp { env = env; dlq_count = suc sp.dlq_count }) seq s,
        release-Settled (record sp { env = env }) seq e s,
      )

  -- The answers that change nothing.
  abbrev pub Refused : SharePartition E → Option Error × SharePartition E → Type 0
  Refused sp (err, end) = (end ≡ sp) × (err ≢ none)

  ack_found-exact :
      (o : Option Entry) (sp : SharePartition E) (consumer : GoString) (seq : ℕ)
      → IsWindow sp
      → get sp.entries seq ≡ o
      → (leased_entry o consumer ≡ true
          → Settled sp seq none (ack_found o sp consumer seq).1
            × (finished (ack_found o sp consumer seq).1 (ack_found o sp consumer seq).1.base
                ≡ false))
        × (leased_entry o consumer ≡ false → Refused sp (ack_found o sp consumer seq))
  unfolding ack_found
  ack_found-exact none sp consumer seq w found =
      (λ h. ground (arith, h), λ h. (refl, λ e. ground (arith, e)))
  ack_found-exact (some e) sp consumer seq w found =
      let gone : SharePartition E = record (retire sp seq) { acked = suc sp.acked } in
      let wg : IsWindow gone = unfold retire in retire-IsWindow sp seq (rw found) w in
      elim (Bool-cases (is_acquired e.state)) [
        | inl held ↦ elim (Bool-cases (str_eq e.holder consumer)) [
          | inl own ↦
              rw (held, own)
                (
                  λ h. (
                    advance-Settled sp gone seq none wg (unfold retire in retire-Settled sp seq),
                    (advance_exact gone wg).2,
                  ),
                  λ h. absurd (ground (arith, h)),
                )
          | inr other ↦
              rw (held, other)
                (λ h. absurd (ground (arith, h)), λ h. (refl, λ q. ground (arith, q)))
        ]
        | inr idle ↦ rw idle (λ h. absurd (ground (arith, h)), λ h. (refl, λ q. ground (arith, q)))
      ]

  ack-open :
      (sp : SharePartition E) (consumer : GoString) (seq : ℕ)
      → sp.closed ≡ false
      → ack sp consumer seq ≡ ack_found (get sp.entries seq) sp consumer seq
  unfolding ack
  ack-open sp consumer seq opened = rw opened refl

  pub ack-branches :
      (sp : SharePartition E) (consumer : GoString) (seq : ℕ)
      → IsWindow sp
      → sp.closed ≡ false
      → (leased_to sp consumer seq ≡ true
          → Settled sp seq none (ack sp consumer seq).1
            × (finished (ack sp consumer seq).1 (ack sp consumer seq).1.base ≡ false))
        × (leased_to sp consumer seq ≡ false → Refused sp (ack sp consumer seq))
  ack-branches sp consumer seq w opened =
      rw (ack-open sp consumer seq opened)
        (ack_found-exact (get sp.entries seq) sp consumer seq w refl)

  -- Acknowledging on an open partition: for the consumer that holds the lease it retires that one
  -- sequence and slides the base to the first sequence that is not finished; for any other consumer
  -- and any other sequence it is an error that changes nothing.
  pub ack_exact :
      (sp : SharePartition E) (consumer : GoString) (seq : ℕ)
      → IsWindow sp
      → sp.closed ≡ false
      → Cases
          (leased_to sp consumer seq)
          (Settled sp seq none (ack sp consumer seq).1
            × (finished (ack sp consumer seq).1 (ack sp consumer seq).1.base ≡ false))
          (Refused sp (ack sp consumer seq))
  ack_exact sp consumer seq w opened =
      let found = ack-branches sp consumer seq w opened in
      by_cases (leased_to sp consumer seq) found.0 found.1

  -- A nack retires the record, and does not release it, where the consumer rejects it or it has
  -- been delivered often enough, and the dead-letter route takes it.
  abbrev pub retires : SharePartition E → Entry → Bool → Bool
  retires sp e requeue =
      if not requeue
      then accepted sp e rejected
      else exhausted sp e && accepted sp e (delivered_without_ack e.count)

  nack_held-Settled :
      (sp : SharePartition E) (seq : ℕ) (e : Entry) (requeue : Bool)
      → get sp.entries seq ≡ some e
      → IsWindow sp
      → Settled sp seq
          (if retires sp e requeue then none else some (released e))
          (nack_held sp seq e requeue).1
  unfolding nack_held
  nack_held-Settled sp seq e requeue found w s =
      let held : has sp.entries seq ≡ true = rw found in
      let bad = dead_letter sp seq e rejected in
      let late = dead_letter sp seq e (delivered_without_ack e.count) in
      ground (
        arith,
        release-Settled sp seq e s,
        advance-Settled sp bad seq _ (dead_letter-IsWindow sp seq e rejected held w)
            (dead_letter-Settled sp seq e rejected) s,
        advance-Settled sp late seq _
            (dead_letter-IsWindow sp seq e (delivered_without_ack e.count) held w)
            (dead_letter-Settled sp seq e (delivered_without_ack e.count)) s,
      )

  -- The entry that a nack leaves of an entry.
  abbrev pub left_by_nack : SharePartition E → Option Entry → Bool → Option Entry
  left_by_nack sp none requeue = none
  left_by_nack sp (some e) requeue = if retires sp e requeue then none else some (released e)

  nack_found-exact :
      (o : Option Entry) (sp : SharePartition E) (consumer : GoString) (seq : ℕ) (requeue : Bool)
      → IsWindow sp
      → get sp.entries seq ≡ o
      → (leased_entry o consumer ≡ true
          → Settled sp seq (left_by_nack sp o requeue) (nack_found o sp consumer seq requeue).1)
        × (leased_entry o consumer ≡ false → Refused sp (nack_found o sp consumer seq requeue))
  unfolding nack_found
  nack_found-exact none sp consumer seq requeue w found =
      (λ h. ground (arith, h), λ h. (refl, λ e. ground (arith, e)))
  nack_found-exact (some e) sp consumer seq requeue w found =
      let counted : SharePartition E = record sp { nacked = suc sp.nacked } in
      elim (Bool-cases (is_acquired e.state)) [
        | inl held ↦ elim (Bool-cases (str_eq e.holder consumer)) [
          | inl own ↦
              rw (held, own)
                (
                  λ h. nack_held-Settled counted seq e requeue found w,
                  λ h. absurd (ground (arith, h)),
                )
          | inr other ↦
              rw (held, other)
                (λ h. absurd (ground (arith, h)), λ h. (refl, λ q. ground (arith, q)))
        ]
        | inr idle ↦ rw idle (λ h. absurd (ground (arith, h)), λ h. (refl, λ q. ground (arith, q)))
      ]

  nack-open :
      (sp : SharePartition E) (consumer : GoString) (seq : ℕ) (requeue : Bool)
      → sp.closed ≡ false
      → nack sp consumer seq requeue ≡ nack_found (get sp.entries seq) sp consumer seq requeue
  unfolding nack
  nack-open sp consumer seq requeue opened = rw opened refl

  pub nack-branches :
      (sp : SharePartition E) (consumer : GoString) (seq : ℕ) (requeue : Bool)
      → IsWindow sp
      → sp.closed ≡ false
      → (leased_to sp consumer seq ≡ true
          → Settled sp seq
              (left_by_nack sp (get sp.entries seq) requeue)
              (nack sp consumer seq requeue).1)
        × (leased_to sp consumer seq ≡ false → Refused sp (nack sp consumer seq requeue))
  nack-branches sp consumer seq requeue w opened =
      rw (nack-open sp consumer seq requeue opened)
        (nack_found-exact (get sp.entries seq) sp consumer seq requeue w refl)

  -- A nack on an open partition by the consumer that holds the lease: the record is retired if the
  -- consumer rejects it or it has been delivered often enough and the dead-letter route takes it,
  -- and is otherwise available again. From any other consumer, or for any other sequence, the nack
  -- is an error that changes nothing.
  pub nack_exact :
      (sp : SharePartition E) (consumer : GoString) (seq : ℕ) (requeue : Bool)
      → IsWindow sp
      → sp.closed ≡ false
      → Cases
          (leased_to sp consumer seq)
          (Settled sp seq
            (left_by_nack sp (get sp.entries seq) requeue)
            (nack sp consumer seq requeue).1)
          (Refused sp (nack sp consumer seq requeue))
  nack_exact sp consumer seq requeue w opened =
      let found = nack-branches sp consumer seq requeue w opened in
      by_cases (leased_to sp consumer seq) found.0 found.1

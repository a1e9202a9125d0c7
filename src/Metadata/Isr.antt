-- ===== src/Metadata/Isr.antt =====
-- The in-sync sets: applyUpdateISR, shrinkISRLocked and applyFenceBroker (internal/cluster/metadata.go).
use boltq.Prelude.{
  ℕ, suc, ◌≡◌, refl, sym, ◌∙◌, Bool, true, false, not, ◌&&◌, ◌||◌, List, [], ◌∷◌, Option, none,
  some, arith, ◌==◌, GoString, str_eq, str_eq_iff, string_eq, nat_eq, elem, elem-cons, inl, inr,
  Bool-cases, Option-cases, keep_if, Cases,
}
use boltq.Prelude.Int.{ℤ}
use boltq.Prelude.Dict.{get, get-put_self, get-update_all, is_some, update_all}
use boltq.Metadata.{
  BrokerInfo, PartitionAssignment, MetadataStore, in_isr, shrunk, shrink_isr_locked, publish_locked,
  fence_found, apply_fence_broker, assignment, partition_key,
}
use boltq.Metadata.Commands.{
  clean_isr, with_leader, update_cleaned, update_found, apply_update_isr, write_back,
}

elem-keep_if :
    (p : GoString → Bool) (x : GoString) (xs : List GoString)
    → elem x (keep_if p xs) ≡ (elem x xs && p x)
unfolding elem
elem-keep_if p x [] = refl
elem-keep_if p x (y ∷ ys) = ground (arith, elem-keep_if p x ys, str_eq_iff y x)

shrunk-out : (id : GoString) (a : PartitionAssignment) → in_isr (shrunk id a) id ≡ false
unfolding in_isr
shrunk-out id a = ground (arith, elem-keep_if (λ x. not (str_eq x id)) id a.isr, str_eq_iff id id)

-- Fencing a broker that was not fenced takes it out of the in-sync set of every partition.
pub fence_leaves_isr :
    (m : MetadataStore) (node_id : GoString) (at : ℤ) (b : BrokerInfo) (k : GoString)
    (a : PartitionAssignment)
    → get m.brokers node_id ≡ some b
    → b.fenced ≡ false
    → get (apply_fence_broker m node_id true at).1.partitions k ≡ some a
    → in_isr a node_id ≡ false
unfolding apply_fence_broker fence_found publish_locked shrink_isr_locked
fence_leaves_isr m node_id at b k a known up found =
    let after : get (update_all (λ k a. shrunk node_id a) m.partitions) k ≡ some a =
      rw (known, fence_found, up) at found in
    elim (Option-cases (get m.partitions k)) [
      | inl absent ↦
          absurd
            (ground (arith, absent, after, get-update_all (λ k a. shrunk node_id a) m.partitions k))
      | inr (old, was) ↦
          let e : shrunk node_id old ≡ a =
            ground (arith, was, after, get-update_all (λ k a. shrunk node_id a) m.partitions k) in
          rw (sym e) (shrunk-out node_id old)
    ]

-- No value is twice in the list.
abbrev pub AllDifferent : List GoString → Type 0
AllDifferent [] = Unit
AllDifferent (x ∷ xs) = (elem x xs ≡ false) × AllDifferent xs

-- The cleaned set: each node of the list, once, and only where every one is a replica.
record Cleaned (replicas seen ids clean : List GoString) : Type 0 where
  same : (x : GoString) → elem x clean ≡ (elem x ids && not (elem x seen))
  in_replicas : (x : GoString) → elem x clean ≡ true → elem x replicas ≡ true
  different : AllDifferent clean

clean_isr-Cleaned :
    (replicas seen ids clean : List GoString)
    → clean_isr replicas seen ids ≡ some clean
    → Cleaned replicas seen ids clean
unfolding clean_isr elem
clean_isr-Cleaned replicas seen [] clean e =
    let q : [] ≡ clean = cc in
    rw (sym q) record { same = λ x. refl; in_replicas = λ x h. ground (arith, h); different = tt }
clean_isr-Cleaned replicas seen (id ∷ ids) clean e = elim (Bool-cases (elem id seen)) [
  | inl twice ↦
      let c = clean_isr-Cleaned replicas seen ids clean (rw twice at e) in
      record {
        same = λ x. ground (arith, c.same x, str_eq_iff id x, twice);
        in_replicas = c.in_replicas;
        different = c.different;
      }
  | inr new ↦ elim (Bool-cases (elem id replicas)) [
    | inr foreign ↦ absurd (ground (arith, e, new, foreign))
    | inl placed ↦ elim (Option-cases (clean_isr replicas (id ∷ seen) ids)) [
      | inl bad ↦ absurd (ground (arith, e, new, placed, bad))
      | inr (rest, r) ↦
          let c = clean_isr-Cleaned replicas (id ∷ seen) ids rest r in
          let q : id ∷ rest ≡ clean = ground (arith, e, new, placed, r) in
          rw (sym q) record {
            same = λ x. ground (arith, c.same x, str_eq_iff id x, new);
            in_replicas = λ x h. ground (arith, h, c.in_replicas x, str_eq_iff id x, placed);
            different = (ground (arith, c.same id, str_eq_iff id id), c.different);
          }
    ]
  ]
]

abbrev pub all_in : List GoString → List GoString → Bool
all_in replicas [] = true
all_in replicas (x ∷ xs) = elem x replicas && all_in replicas xs

clean_isr-succeeds :
    (replicas seen ids : List GoString)
    → ((x : GoString) → elem x seen ≡ true → elem x replicas ≡ true)
    → is_some (clean_isr replicas seen ids) ≡ all_in replicas ids
unfolding clean_isr
clean_isr-succeeds replicas seen [] h = refl
clean_isr-succeeds replicas seen (id ∷ ids) h = elim (Bool-cases (elem id seen)) [
  | inl twice ↦ rw twice (ground (arith, h id twice, clean_isr-succeeds replicas seen ids h))
  | inr new ↦ elim (Bool-cases (elem id replicas)) [
    | inr foreign ↦ rw (new, foreign) refl
    | inl placed ↦
        let rest =
          clean_isr-succeeds replicas (id ∷ seen) ids
            (λ x q. ground (arith, q, elem-cons x id seen, h x, str_eq_iff id x, placed)) in
        ground (arith, new, placed, rest)
  ]
]

-- The assignment under `key` after its in-sync set has become `isr` with the leader.
pub record Updated (a : PartitionAssignment) (isr : List GoString) (b : PartitionAssignment)
    : Type 0 where
  pub leader : b.leader ≡ a.leader
  pub epoch : b.leader_epoch ≡ a.leader_epoch
  pub replicas : b.replicas ≡ a.replicas
  pub members :
      (x : GoString)
      → elem x b.isr ≡ (elem x isr || (str_eq a.leader x && not (str_eq a.leader [])))
  pub different : AllDifferent b.isr
  pub version : b.version ≡ suc a.version

with_leader-members :
    (leader : GoString) (set : List GoString)
    → (x : GoString)
    → elem x (with_leader leader set) ≡ (elem x set || (str_eq leader x && not (str_eq leader [])))
unfolding elem str_eq
with_leader-members [] set x = ground arith
with_leader-members (c ∷ leader) set x = ground (arith, str_eq_iff (c ∷ leader) x)

with_leader-different :
    (leader : GoString) (set : List GoString)
    → AllDifferent set
    → AllDifferent (with_leader leader set)
with_leader-different [] set h = h
with_leader-different (c ∷ leader) set h = elim (Bool-cases (elem (c ∷ leader) set)) [
  | inl there ↦ rw there h
  | inr out ↦ rw out (out, h)
]

Updated-by :
    (a : PartitionAssignment) (isr clean : List GoString)
    → clean_isr a.replicas [] isr ≡ some clean
    → Updated a isr (record a { isr = with_leader a.leader clean; version = suc a.version })
Updated-by a isr clean e =
    let c = clean_isr-Cleaned a.replicas [] isr clean e in
    record {
      leader = refl;
      epoch = refl;
      replicas = refl;
      members = λ x. with_leader-members a.leader clean x ∙ unfold elem in ground (arith, c.same x);
      different = with_leader-different a.leader clean c.different;
      version = refl;
    }

update_cleaned-exact :
    (o : Option (List GoString)) (m : MetadataStore) (key : GoString) (a : PartitionAssignment)
    (isr : List GoString)
    → clean_isr a.replicas [] isr ≡ o
    → Cases
        (is_some o)
        ((b : PartitionAssignment) × (get (update_cleaned o a m key).1.partitions key ≡ some b)
          × Updated a isr b)
        ((update_cleaned o a m key).1 ≡ m)
unfolding update_cleaned write_back publish_locked
update_cleaned-exact none m key a isr e = refl
update_cleaned-exact (some clean) m key a isr e =
    (_, get-put_self m.partitions key _, Updated-by a isr clean e)

-- An update of the in-sync set of a partition that exists is applied exactly when it carries the
-- current leader epoch and names replicas only; the set then has the nodes named and the leader,
-- if there is one, each once, and the leader, its epoch and the replicas stay. Any other update
-- of it changes nothing.
pub update_isr_exact :
    (m : MetadataStore) (topic : GoString) (partition epoch : ℕ) (isr : List GoString)
    (a : PartitionAssignment)
    → assignment m topic partition ≡ some a
    → Cases
        ((epoch == a.leader_epoch) && all_in a.replicas isr)
        ((b : PartitionAssignment) × (assignment
              (apply_update_isr m topic partition epoch isr).1
              topic
              partition
            ≡ some b)
          × Updated a isr b)
        ((apply_update_isr m topic partition epoch isr).1 ≡ m)
unfolding apply_update_isr update_found assignment
update_isr_exact m topic partition epoch isr a known = elim (Bool-cases (epoch == a.leader_epoch)) [
  | inr stale ↦ rw (known, update_found, stale) refl
  | inl current ↦
      rw
        (
          known,
          update_found,
          current,
          sym (clean_isr-succeeds a.replicas [] isr (λ x h. unfold elem in ground (arith, h))),
        )
        (update_cleaned-exact (clean_isr a.replicas [] isr) m (partition_key topic partition) a isr
          refl)
]

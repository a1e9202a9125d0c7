-- ===== src/Metadata/Epochs.antt =====
-- One leader for each epoch of a partition, through any sequence of commands
-- (internal/cluster/metadata.go, metadata_fsm.go).
use boltq.Prelude.{
  ℕ, suc, ◌≤◌, ◌<◌, ◌≡◌, refl, sym, ap, ◌∙◌, true, false, List, [], ◌∷◌, some, arith, GoString,
  str_eq, str_eq_iff, string_eq, nat_eq, ◌⊎◌, inl, inr, Bool-cases, Option-cases,
}
use boltq.Prelude.Dict.{Dict, get, has, put, get-put, get-update_all, update_all}
use boltq.Metadata.{PartitionAssignment, TopicMeta, partition_key, shrunk, placed, place_from}
use boltq.Metadata.Names.{partition_key-topic}

-- Each assignment is under its own key, and its topic exists.
pub record HasTopics (topics : Dict GoString TopicMeta)
    (partitions : Dict GoString PartitionAssignment) : Type 0 where
  pub under_key :
      (k : GoString) (a : PartitionAssignment)
      → get partitions k ≡ some a
      → k ≡ partition_key a.topic a.partition
  pub known :
      (k : GoString) (a : PartitionAssignment)
      → get partitions k ≡ some a
      → has topics a.topic ≡ true

-- The same partition, later: the epoch has risen, or it and the leader are the same.
pub record Rises (a b : PartitionAssignment) : Type 0 where
  pub topic : b.topic ≡ a.topic
  pub partition : b.partition ≡ a.partition
  pub epoch :
      (a.leader_epoch < b.leader_epoch)
      ⊎ ((b.leader_epoch ≡ a.leader_epoch) × (b.leader ≡ a.leader))
  pub version : a.version ≤ b.version

pub Rises-refl : (a : PartitionAssignment) → Rises a a
Rises-refl a = record {
  topic = refl;
  partition = refl;
  epoch = inr (refl, refl);
  version = omega arith;
}

pub Rises-trans : (a b c : PartitionAssignment) → Rises a b → Rises b c → Rises a c
Rises-trans a b c f g = record {
  topic = g.topic ∙ f.topic;
  partition = g.partition ∙ f.partition;
  epoch = elim f.epoch [
    | inl up ↦ elim g.epoch [
      | inl more ↦ inl (omega (arith, up, more))
      | inr same ↦ inl (omega (arith, up, same.0))
    ]
    | inr same ↦ elim g.epoch [
      | inl up ↦ inl (omega (arith, same.0, up))
      | inr again ↦ inr (again.0 ∙ same.0, again.1 ∙ same.1)
    ]
  ];
  version = omega (arith, f.version, g.version);
}

abbrev pub Partitions : Type 0
Partitions = Dict GoString PartitionAssignment

-- The assignment under the key is still there, and has risen.
abbrev pub Risen : PartitionAssignment → GoString → Partitions → Type 0
Risen a k d = (b : PartitionAssignment) × (get d k ≡ some b) × Rises a b

pub record Later (topics : Dict GoString TopicMeta) (before after : Partitions) : Type 0 where
  pub named : HasTopics topics after
  pub rises : (k : GoString) (a : PartitionAssignment) → get before k ≡ some a → Risen a k after

pub same-Later :
    (topics : Dict GoString TopicMeta) (d : Partitions) → HasTopics topics d → Later topics d d
same-Later topics d h = record { named = h; rises = λ k a found. (a, found, Rises-refl a) }

shrunk-Rises : (id : GoString) (a : PartitionAssignment) → Rises a (shrunk id a)
shrunk-Rises id a = record {
  topic = ground arith;
  partition = ground arith;
  epoch = inr (ground arith, ground arith);
  version = ground arith;
}

pub shrink-Later :
    (topics : Dict GoString TopicMeta) (d : Partitions) (id : GoString)
    → HasTopics topics d
    → Later topics d (update_all (λ k a. shrunk id a) d)
shrink-Later topics d id h = record {
  named = record { under_key = under; known = known };
  rises = λ k a found. (
    shrunk id a,
    ground (arith, found, get-update_all (λ k a. shrunk id a) d k),
    shrunk-Rises id a,
  );
}
  where
    under :
        (k : GoString) (b : PartitionAssignment)
        → get (update_all (λ k a. shrunk id a) d) k ≡ some b
        → k ≡ partition_key b.topic b.partition
    under k b found = elim (Option-cases (get d k)) [
      | inl absent ↦ absurd (ground (arith, absent, found, get-update_all (λ k a. shrunk id a) d k))
      | inr (a, was) ↦
          let e : shrunk id a ≡ b =
            ground (arith, was, found, get-update_all (λ k a. shrunk id a) d k) in
          let r = shrunk-Rises id a in rw (sym e) (rw (r.topic, r.partition) (h.under_key k a was))
    ]

    known :
        (k : GoString) (b : PartitionAssignment)
        → get (update_all (λ k a. shrunk id a) d) k ≡ some b
        → has topics b.topic ≡ true
    known k b found = elim (Option-cases (get d k)) [
      | inl absent ↦ absurd (ground (arith, absent, found, get-update_all (λ k a. shrunk id a) d k))
      | inr (a, was) ↦
          let e : shrunk id a ≡ b =
            ground (arith, was, found, get-update_all (λ k a. shrunk id a) d k) in
          let r = shrunk-Rises id a in rw (sym e) (rw r.topic (h.known k a was))
    ]

-- Writing back a later assignment under the key of the old one.
pub put-Later :
    (topics : Dict GoString TopicMeta) (d : Partitions) (key : GoString) (a b : PartitionAssignment)
    → HasTopics topics d
    → get d key ≡ some a
    → Rises a b
    → Later topics d (put d key b)
put-Later topics d key a b h was r = record {
  named = record {
    under_key = λ k c found. elim (Bool-cases (str_eq key k)) [
      | inl same ↦
          let e : b ≡ c = ground (arith, found, same, get-put d key b k) in
          let kk : key ≡ k = (str_eq_iff key k).0 same in
          rw (sym e) (rw (r.topic, r.partition) (sym kk ∙ h.under_key key a was))
      | inr other ↦ h.under_key k c (ground (arith, found, other, get-put d key b k))
    ];
    known = λ k c found. elim (Bool-cases (str_eq key k)) [
      | inl same ↦
          let e : b ≡ c = ground (arith, found, same, get-put d key b k) in
          rw (sym e) (rw r.topic (h.known key a was))
      | inr other ↦ h.known k c (ground (arith, found, other, get-put d key b k))
    ];
  };
  rises = λ k c found. elim (Bool-cases (str_eq key k)) [
    | inl same ↦
        let kk : key ≡ k = (str_eq_iff key k).0 same in
        let both : some a ≡ some c = sym was ∙ ap (get d) kk ∙ found in
        let e : a ≡ c = cc in (b, ground (arith, same, get-put d key b k), rw (sym e) r)
    | inr other ↦ (c, ground (arith, found, other, get-put d key b k), Rises-refl c)
  ];
}

-- Placing a topic's partitions writes only keys of that topic.
place_from-other :
    (t : GoString) (pid : ℕ) (rs : List (List GoString)) (d : Partitions) (k : GoString)
    → ((p : ℕ) → str_eq (partition_key t p) k ≡ false)
    → get (place_from t pid rs d) k ≡ get d k
unfolding place_from
place_from-other t pid [] d k h = refl
place_from-other t pid (r ∷ rs) d k h =
    place_from-other t (suc pid) rs _ k h
    ∙ get-put d (partition_key t pid) (placed t pid r) k
    ∙ rw (h pid)

place_from-named :
    (topics : Dict GoString TopicMeta) (t : GoString) (pid : ℕ) (rs : List (List GoString))
    (d : Partitions)
    → has topics t ≡ true
    → HasTopics topics d
    → HasTopics topics (place_from t pid rs d)
unfolding place_from
place_from-named topics t pid [] d there h = h
place_from-named topics t pid (r ∷ rs) d there h =
    place_from-named topics t (suc pid) rs (put d (partition_key t pid) (placed t pid r)) there
      record {
        under_key = λ k c found. elim (Bool-cases (str_eq (partition_key t pid) k)) [
          | inl same ↦
              let e : placed t pid r ≡ c =
                ground (arith, found, same, get-put d (partition_key t pid) (placed t pid r) k) in
              rw (sym e) (sym ((str_eq_iff (partition_key t pid) k).0 same))
          | inr other ↦
              h.under_key k c
                (ground (arith, found, other, get-put d (partition_key t pid) (placed t pid r) k))
        ];
        known = λ k c found. elim (Bool-cases (str_eq (partition_key t pid) k)) [
          | inl same ↦
              let e : placed t pid r ≡ c =
                ground (arith, found, same, get-put d (partition_key t pid) (placed t pid r) k) in
              rw (sym e) there
          | inr other ↦
              h.known k c
                (ground (arith, found, other, get-put d (partition_key t pid) (placed t pid r) k))
        ];
      }

-- A new topic leaves every partition of the others as it was.
pub create-Later :
    (topics : Dict GoString TopicMeta) (d : Partitions) (meta : TopicMeta)
    (rs : List (List GoString))
    → HasTopics topics d
    → has topics meta.name ≡ false
    → Later (put topics meta.name meta) d (place_from meta.name 0 rs d)
create-Later topics d meta rs h fresh = record {
  named =
      place_from-named (put topics meta.name meta) meta.name 0 rs d
        (ground (arith, get-put topics meta.name meta meta.name, str_eq_iff meta.name meta.name))
        record {
          under_key = h.under_key;
          known =
              λ k a found. ground (arith, h.known k a found, get-put topics meta.name meta a.topic);
        };
  rises = λ k a found.
      (a, place_from-other meta.name 0 rs d k (λ p. other k a found p) ∙ found, Rises-refl a);
}
  where
    other :
        (k : GoString) (a : PartitionAssignment)
        → get d k ≡ some a
        → (p : ℕ) → str_eq (partition_key meta.name p) k ≡ false
    other k a found p = elim (Bool-cases (str_eq (partition_key meta.name p) k)) [
      | inl same ↦
          let e : meta.name ≡ a.topic =
            partition_key-topic meta.name a.topic p a.partition
              ((str_eq_iff (partition_key meta.name p) k).0 same ∙ h.under_key k a found) in
          absurd (ground (arith, fresh, h.known k a found, e))
      | inr ne ↦ ne
    ]

-- ===== src/Broker/Registry/Partitions.antt =====
-- TopicPartitionLogKey and NextTopicPartitionOffset of internal/resource/broker_queue.go.
use Prim.Native.Char.{Char, code}
use Prim.Native.String.{String, ◌++◌ as str_append}
use Prim.Native.String.append
use simulation_core.Base.{
  ℕ, suc, ◌≡◌, refl, sym, ap, ◌∙◌, Bool, false, List, [], ◌∷◌, ◌&&◌, ◌=ₛ◌, ◌==◌, if◌then◌else◌,
  arith, eq_iff, All, map, Bool-cases, inl, inr,
}
use simulation_core.Broker.Registry.{
  BrokerQueues, topic_partition_log_key, next_topic_partition_offset,
}
use simulation_core.Broker.Registry.Laws.{count, assign_all, next_offset-assign_all}

abbrev is_separator : Char → Bool
is_separator c = code c == 31

-- No separator of the key, the character 0x1f, stands in a text.
abbrev pub Plain : String → Type 0
Plain String.[] = Unit {0}
Plain (String.◌∷◌ c s) = (is_separator c ≡ false) × Plain s

before_separator : String → String
before_separator String.[] = ""
before_separator (String.◌∷◌ c s) =
    let rest = before_separator s in if is_separator c then "" else String.◌∷◌ c rest

after_separator : String → String
after_separator String.[] = ""
after_separator (String.◌∷◌ c s) =
    let rest = after_separator s in if is_separator c then s else rest

abbrev joined : String → String → String
joined first second = str_append first (str_append "\u{1f}" second)

before-joined : (a b : String) → Plain a → before_separator (joined a b) ≡ a
unfolding before_separator
before-joined String.[] b plain =
    rw (append.nil (str_append "\u{1f}" b)) (rw (append.cons "\u{1f}" "" b) refl)
before-joined (String.◌∷◌ c s) b plain =
    rw (append.cons c s (str_append "\u{1f}" b))
      (rw plain.0 (ap (λ l. String.◌∷◌ c l) (before-joined s b plain.1)))

after-joined : (a b : String) → Plain a → after_separator (joined a b) ≡ b
unfolding after_separator
after-joined String.[] b plain =
    rw (append.nil (str_append "\u{1f}" b))
      (rw (append.cons "\u{1f}" "" b) (rw (append.nil b) refl))
after-joined (String.◌∷◌ c s) b plain =
    rw (append.cons c s (str_append "\u{1f}" b)) (rw plain.0 (after-joined s b plain.1))

joined-first : (a b c d : String) → Plain a → Plain c → joined a b ≡ joined c d → a ≡ c
joined-first a b c d p q e =
    sym (before-joined a b p) ∙ (ap before_separator e ∙ before-joined c d q)

joined-second : (a b c d : String) → Plain a → Plain c → joined a b ≡ joined c d → b ≡ d
joined-second a b c d p q e = sym (after-joined a b p) ∙ (ap after_separator e ∙ after-joined c d q)

-- A partition of a topic on a broker, and whether two are the same.
pub record Partition : Type 0 where
  pub broker : String
  pub path : String
  pub number : ℕ

abbrev pub IsPlain : Partition → Type 0
IsPlain p = Plain p.broker × Plain p.path

abbrev pub is_same : Partition → Partition → Bool
is_same p q = p.broker =ₛ q.broker && p.path =ₛ q.path && p.number == q.number

abbrev pub count_same : Partition → List Partition → ℕ
count_same p [] = 0
count_same p (q ∷ qs) = let rest = count_same p qs in if is_same q p then suc rest else rest

module _ {Payload Float : Type 0} (itoa : ℕ → String) where
  -- Offsets are assigned in the partitions one after another.
  abbrev pub assign_in : BrokerQueues Payload Float → List Partition → BrokerQueues Payload Float
  assign_in b [] = b
  assign_in b (q ∷ qs) =
      assign_in (next_topic_partition_offset itoa b q.broker q.path q.number).1 qs

module _ (itoa : ℕ → String) (injective : (m n : ℕ) → itoa m ≡ itoa n → m ≡ n) where
  abbrev key_of : Partition → String
  key_of p = topic_partition_log_key itoa p.broker p.path p.number

  -- Keys agree exactly where the partitions do.
  key-same : (p q : Partition) → IsPlain p → IsPlain q → (key_of p =ₛ key_of q) ≡ is_same p q
  key-same p q v w = elim (Bool-cases (key_of p =ₛ key_of q)) [
    | inl same ↦
        let keys : key_of p ≡ key_of q = (eq_iff (key_of p) (key_of q)).0 same in
        let rest = joined-second p.broker _ q.broker _ v.0 w.0 keys in
        let brokers = joined-first p.broker _ q.broker _ v.0 w.0 keys in
        let paths = joined-first p.path _ q.path _ v.1 w.1 rest in
        let numbers = injective p.number q.number (joined-second p.path _ q.path _ v.1 w.1 rest) in
        ground (arith, brokers, paths, numbers, eq_iff p.broker q.broker, eq_iff p.path q.path)
    | inr other ↦ elim (Bool-cases (is_same p q)) [
      | inl alike ↦
          let brokers : p.broker ≡ q.broker = ground (arith, eq_iff p.broker q.broker) in
          let paths : p.path ≡ q.path = ground (arith, eq_iff p.path q.path) in
          let numbers : p.number ≡ q.number = ground arith in
          let keys : key_of p ≡ key_of q = rw (brokers, paths, numbers) in
          ground (arith, eq_iff (key_of p) (key_of q), keys)
      | inr differ ↦ other ∙ sym differ
    ]
  ]

  count-key :
      (p : Partition) (qs : List Partition)
      → IsPlain p
      → All IsPlain qs
      → count (key_of p) (map key_of qs) ≡ count_same p qs
  count-key p [] v w = refl
  count-key p (q ∷ qs) v w = rw (key-same q p w.0 v, count-key p qs v w.1)

  module _ {Payload Float : Type 0} where
    assign_in-all :
        (qs : List Partition) (b : BrokerQueues Payload Float)
        → assign_in itoa b qs ≡ assign_all b (map key_of qs)
    assign_in-all [] b = refl
    assign_in-all (q ∷ qs) b =
        assign_in-all qs (next_topic_partition_offset itoa b q.broker q.path q.number).1

    -- Where no broker id and no path holds the character 0x1f, and different partition numbers are
    -- printed differently: in a new registry, after any assignments, the next offset of a partition is
    -- the number of those that were for the same broker, path and partition number.
    pub next_topic_partition_offset-count :
        (b : BrokerQueues Payload Float) (p : Partition) (qs : List Partition)
        → b.topic_partition_hw ≡ []
        → IsPlain p
        → All IsPlain qs
        → (next_topic_partition_offset itoa (assign_in itoa b qs) p.broker p.path p.number).0
          ≡ count_same p qs
    next_topic_partition_offset-count b p qs fresh v w =
        ap
          (λ (c : BrokerQueues Payload Float).
            (next_topic_partition_offset itoa c p.broker p.path p.number).0)
          (assign_in-all qs b)
        ∙ (next_offset-assign_all (map key_of qs) b (key_of p) fresh ∙ count-key p qs v w)

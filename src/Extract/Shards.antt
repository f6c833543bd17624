-- ===== src/Extract/Shards.antt =====
-- The shards on their way through the vectors: `pop`, `split_readable` and `get_next_readable_shard`.
use cedana_image_streamer.Prelude.{
  pop, pop-eq-none, pop-eq-some, ℕ, zero, suc, ◌+◌, ◌≡◌, ◌<◌, ◌⊎◌, leb, refl, ap, subst, Bool, true,
  false, none, some, List, [], ◌∷◌, ◌++◌, length, length-append, map-append, Result, ok, All,
  All-left, All-right, All-map, arith, Option-cases, Bool-cases, inl, inr, if_both,
}
use cedana_image_streamer.System.{System}
use cedana_image_streamer.Stream.{Piece, occurs}
use cedana_image_streamer.Stream.Laws.{occurs-append}
use cedana_image_streamer.Extract.{
  Shard, ImageDeserializer, split_readable, is_nil, move_readable, pop_readable, pop_shard,
  get_next_readable_shard,
}
use cedana_image_streamer.Extract.Invariant.{fds, IsQueued, total, Inv}

split_readable-All :
    (P : Shard → Type 0) (ready : ℕ → Bool) (i : ℕ) (ss : List Shard)
    → All P ss
    → All P (split_readable ready i ss).0 × All P (split_readable ready i ss).1
unfolding split_readable
split_readable-All P ready i [] h = (tt, tt)
split_readable-All P ready i (s ∷ ss) h =
    let (a, b) = split_readable-All P ready (suc i) ss h.1 in
    if_both (λ (z : List Shard × List Shard). All P z.0 × All P z.1) (ready i) ((h.0, a), b)
      (a, (h.0, b))

split_readable-occurs :
    (j : ℕ) (ready : ℕ → Bool) (i : ℕ) (ss : List Shard)
    → occurs j (fds (split_readable ready i ss).1) + occurs j (fds (split_readable ready i ss).0)
      ≡ occurs j (fds ss)
unfolding split_readable
split_readable-occurs j ready i [] = omega arith
split_readable-occurs j ready i (s ∷ ss) = ground (arith, split_readable-occurs j ready (suc i) ss)

split_readable-length :
    (ready : ℕ → Bool) (i : ℕ) (ss : List Shard)
    → length (split_readable ready i ss).1 + length (split_readable ready i ss).0 ≡ length ss
unfolding split_readable
split_readable-length ready i [] = omega arith
split_readable-length ready i (s ∷ ss) = ground (arith, split_readable-length ready (suc i) ss)

-- If one of the descriptors is ready, a shard is readable.
split_readable-some :
    (ready : ℕ → Bool) (i k : ℕ) (ss : List Shard)
    → k < length ss
    → ready (i + k) ≡ true
    → is_nil (split_readable ready i ss).0 ≡ false
unfolding split_readable
split_readable-some ready i k [] h e = absurd (omega arith)
split_readable-some ready i zero (s ∷ ss) h e =
    let e' : ready i ≡ true = (let z : i + 0 ≡ i = omega arith in rw z at e) in ground arith
split_readable-some ready i (suc k) (s ∷ ss) h e =
    let z : i + suc k ≡ suc i + k = omega arith in
    ground (arith, split_readable-some ready (suc i) k ss (omega arith) (rw z at e))

-- The invariant, when shards only change places.
pub Inv-move :
    {Store File : Type 0} (sys : System) (d : ImageDeserializer Store File) (todo : List Piece)
    (shards readable : List Shard)
    → Inv sys d todo
    → All (IsQueued sys.codec todo) shards
    → All (IsQueued sys.codec todo) readable
    → ((j : ℕ)
        → occurs j (fds shards) + occurs j (fds readable)
          ≡ occurs j (fds d.shards) + occurs j (fds d.readable_shards))
    → Inv sys (record d { shards = shards; readable_shards = readable }) todo
Inv-move sys d todo shards readable v q r same = record {
  shards = q;
  readable = r;
  pending = v.pending;
  done = v.done;
  numbered = v.numbered;
  fits = v.fits;
  sized = v.sized;
  present =
      All-map (λ p. total d p.home ≡ 1) _ todo (λ p h. omega (arith, same p.home, h)) v.present;
  distinct = λ j. omega (arith, same j, v.distinct j);
}

pub is_nil-eq {ℓ} : {A : Type ℓ} (xs : List A) → is_nil xs ≡ true → xs ≡ []
is_nil-eq [] h = refl
is_nil-eq (x ∷ xs) h = cc

-- poll() with no timeout answers with a descriptor that is ready, and no error.
abbrev pub Polls : (ℕ → Result (ℕ → Bool)) → Type 0
Polls poll =
    (n : ℕ)
    → 0 < n
    → (ready : ℕ → Bool) × (k : ℕ) × (poll n ≡ ok ready) × (k < n) × (ready k ≡ true)

module _ {Store File : Type 0} (sys : System) (d : ImageDeserializer Store File) (todo : List Piece)
    (v : Inv sys d todo) where
  -- No shard is left to read.
  abbrev pub IsExhausted : (ℕ → Result (ℕ → Bool)) → Type 0
  IsExhausted poll =
      (get_next_readable_shard poll d ≡ ok (none, d)) × (d.shards ≡ []) × (d.readable_shards ≡ [])

  -- A shard was taken out; with it put back in front, the invariant holds.
  abbrev pub Takes : (ℕ → Result (ℕ → Bool)) → Type 0
  Takes poll =
      (shard : Shard) × (shards : List Shard) × (readable : List Shard) × (get_next_readable_shard
          poll d
        ≡ ok (some shard, record d { shards = shards; readable_shards = readable }))
      × Inv sys (record d { shards = shard ∷ shards; readable_shards = readable }) todo
      × (suc (length shards) + length readable ≡ length d.shards + length d.readable_shards)

  take_readable :
      (shards readable front : List Shard) (last : Shard)
      → Inv sys (record d { shards = shards; readable_shards = readable }) todo
      → readable ≡ front ++ last ∷ []
      → Inv sys (record d { shards = last ∷ shards; readable_shards = front }) todo
        × (suc (length shards) + length front ≡ length shards + length readable)
  take_readable shards readable front last w e =
      let q = subst (All (IsQueued sys.codec todo)) e w.readable in
      (
        Inv-move sys (record d { shards = shards; readable_shards = readable }) todo (last ∷ shards)
            front w ((All-right (IsQueued sys.codec todo) front (last ∷ []) q).0, w.shards)
            (All-left (IsQueued sys.codec todo) front (last ∷ []) q)
            (λ j.
              rw
                (
                  e,
                  map-append (λ (s : Shard). s.pipe.fd) front (last ∷ []),
                  occurs-append j (fds front) (last.pipe.fd ∷ []),
                )
                (omega arith)),
        rw e (omega (arith, length-append front (last ∷ []))),
      )

  take_shard :
      (front : List Shard) (last : Shard)
      → d.shards ≡ front ++ last ∷ []
      → Inv sys (record d { shards = last ∷ front; readable_shards = d.readable_shards }) todo
        × (suc (length front) + length d.readable_shards
            ≡ length d.shards + length d.readable_shards)
  take_shard front last e =
      let q = subst (All (IsQueued sys.codec todo)) e v.shards in
      (
        Inv-move sys d todo (last ∷ front) d.readable_shards v
            (
              (All-right (IsQueued sys.codec todo) front (last ∷ []) q).0,
              All-left (IsQueued sys.codec todo) front (last ∷ []) q,
            )
            v.readable
            (λ j.
              rw
                (
                  e,
                  map-append (λ (s : Shard). s.pipe.fd) front (last ∷ []),
                  occurs-append j (fds front) (last.pipe.fd ∷ []),
                )
                (omega arith)),
        rw e (omega (arith, length-append front (last ∷ []))),
      )

  module _ (poll : ℕ → Result (ℕ → Bool)) where
    some_readable : is_nil d.readable_shards ≡ false → IsExhausted poll ⊎ Takes poll
    unfolding get_next_readable_shard pop_readable
    some_readable h = elim (Option-cases (pop d.readable_shards)) [
      | inl e ↦ let e' = pop-eq-none d.readable_shards e in cc (rw e' at h)
      | inr ((front, last), e) ↦
          let (w, len) =
            take_readable d.shards d.readable_shards front last v
              (pop-eq-some d.readable_shards front last e) in
          inr (last, d.shards, front, ground arith, w, len)
    ]

    few_shards :
        d.readable_shards ≡ [] → leb (length d.shards) 1 ≡ true → IsExhausted poll ⊎ Takes poll
    unfolding get_next_readable_shard pop_shard
    few_shards h few = elim (Option-cases (pop d.shards)) [
      | inl e ↦ inl (ground arith, pop-eq-none d.shards e, h)
      | inr ((front, last), e) ↦
          let (w, len) = take_shard front last (pop-eq-some d.shards front last e) in
          inr (last, front, d.readable_shards, ground arith, w, len)
    ]

    many_shards :
        Polls poll
        → d.readable_shards ≡ []
        → leb (length d.shards) 1 ≡ false
        → IsExhausted poll ⊎ Takes poll
    unfolding get_next_readable_shard move_readable pop_readable
    many_shards law h many =
        let (ready, k, answer, k_lt, k_ready) = law (length d.shards) (ground arith) in
        let readable = (split_readable ready 0 d.shards).0 in
        let waiting = (split_readable ready 0 d.shards).1 in
        let k_ready' : ready (0 + k) ≡ true = (let z : 0 + k ≡ k = omega arith in rw z k_ready) in
        let some_ready = split_readable-some ready 0 k d.shards k_lt k_ready' in
        let (qr, qw) = split_readable-All (IsQueued sys.codec todo) ready 0 d.shards v.shards in
        let moved =
          Inv-move sys d todo waiting readable v qw qr
            (λ j. rw h (omega (arith, split_readable-occurs j ready 0 d.shards))) in
        elim (Option-cases (pop readable)) [
          | inl e ↦ let e' = pop-eq-none readable e in cc (rw e' at some_ready)
          | inr ((front, last), e) ↦
              let (w, len) =
                take_readable waiting readable front last moved
                  (pop-eq-some readable front last e) in
              inr (
                last,
                waiting,
                front,
                ground (arith, answer, some_ready, e, h, many),
                w,
                omega (arith, len, split_readable-length ready 0 d.shards, ap length h),
              )
        ]

    -- The shards are exhausted, or one of them is taken out.
    pub get_next_readable_cases : Polls poll → IsExhausted poll ⊎ Takes poll
    get_next_readable_cases law = elim (Bool-cases (is_nil d.readable_shards)) [
      | inr h ↦ some_readable h
      | inl h ↦
          let none_readable = is_nil-eq d.readable_shards h in
          elim (Bool-cases (leb (length d.shards) 1)) [
            | inl few ↦ few_shards none_readable few
            | inr many ↦ many_shards law none_readable many
          ]
    ]

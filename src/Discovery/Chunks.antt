-- ===== src/Discovery/Chunks.antt =====
-- lib/regression.py, RegressionConfig._chunk_arguments: the arguments of one Bazel call are limited in
-- their characters. `len` is the length of an argument.
use rules_verilog.Base.{
  ℕ, ◌+◌, ◌≤◌, ◌<◌, ◌≡◌, ◌⊎◌, inl, inr, refl, ◌∙◌, sym, ap, subst, Bool, true, false, List, [], ◌∷◌,
  ◌++◌, length, length-append, append_assoc, append-nil, ltb, Bool-cases, if◌then◌else◌, arith,
}

module _ {ℓ} {A : Type ℓ} (len : A → ℕ) (max_chars : ℕ) where
  abbrev pub is_empty : List A → Bool
  is_empty [] = true
  is_empty (_ ∷ _) = false

  -- The end of the function: the chunk that is left.
  abbrev pub last_chunk : List (List A) → List A → List (List A)
  last_chunk chunks [] = chunks
  last_chunk chunks (a ∷ current) = chunks ++ ((a ∷ current) ∷ [])

  -- The loop over the arguments.
  pub chunk_loop : List A → List (List A) → List A → (current_chars : ℕ) → List (List A)
  chunk_loop [] chunks current current_chars = last_chunk chunks current
  chunk_loop (argument ∷ arguments) chunks current current_chars =
      let argument_chars = len argument + 1 in
      let split = chunk_loop arguments (chunks ++ (current ∷ [])) (argument ∷ []) argument_chars in
      let joined =
        chunk_loop arguments chunks (current ++ (argument ∷ [])) (current_chars + argument_chars) in
      elim (is_empty current) [
        | true ↦ joined
        | false ↦ if ltb max_chars (current_chars + argument_chars) then split else joined
      ]

  unfoldable pub chunk_arguments : List A → List (List A)
  unfolding chunk_loop
  chunk_arguments arguments = chunk_loop arguments [] [] 0

  -- The characters of a chunk, with one separator for each argument.
  abbrev pub chars : List A → ℕ
  chars [] = 0
  chars (a ∷ rest) = len a + 1 + chars rest

  abbrev pub concat : List (List A) → List A
  concat [] = []
  concat (c ∷ cs) = c ++ concat cs

  -- A chunk has an argument, and either keeps to the limit or has no other.
  abbrev pub Fits : List A → Type 0
  Fits c = (1 ≤ length c) × ((chars c ≤ max_chars) ⊎ (length c ≡ 1))

  -- Every chunk fits, and no chunk could have taken the first argument of the next one.
  pub data AreChunks : List (List A) → Type ℓ where
    no_chunk : AreChunks []
    last_one : (c : List A) → Fits c → AreChunks (c ∷ [])
    next_one :
        (c d : List A) (a : A) (cs : List (List A))
        → Fits c
        → max_chars < chars c + (len a + 1)
        → AreChunks ((a ∷ d) ∷ cs)
        → AreChunks (c ∷ ((a ∷ d) ∷ cs))

  chars-append : (c d : List A) → chars (c ++ d) ≡ chars c + chars d
  chars-append [] d = omega arith
  chars-append (a ∷ c) d = omega (arith, chars-append c d)

  concat-append : (cs ds : List (List A)) → concat (cs ++ ds) ≡ concat cs ++ concat ds
  concat-append [] ds = refl
  concat-append (c ∷ cs) ds =
      ap (λ l. c ++ l) (concat-append cs ds) ∙ sym (append_assoc c (concat cs) (concat ds))

  -- The loop only appends to its chunks.
  chunk_loop-append :
      (arguments : List A) (chunks : List (List A)) (current : List A) (n : ℕ)
      → chunk_loop arguments chunks current n ≡ chunks ++ chunk_loop arguments [] current n
  unfolding chunk_loop
  chunk_loop-append [] chunks [] n = sym (append-nil chunks)
  chunk_loop-append [] chunks (c ∷ cs) n = refl
  chunk_loop-append (a ∷ rest) chunks [] n =
      chunk_loop-append rest chunks (a ∷ []) (n + (len a + 1))
  chunk_loop-append (a ∷ rest) chunks (c ∷ cs) n =
      elim (Bool-cases (ltb max_chars (n + (len a + 1)))) [
        | inl over ↦ rw over (
            chunk_loop-append rest (chunks ++ ((c ∷ cs) ∷ [])) (a ∷ []) (len a + 1)
            ∙ append_assoc chunks ((c ∷ cs) ∷ []) (chunk_loop rest [] (a ∷ []) (len a + 1))
            ∙ ap (λ l. chunks ++ l)
                (sym (chunk_loop-append rest ((c ∷ cs) ∷ []) (a ∷ []) (len a + 1))))
        | inr fits ↦
            rw fits (chunk_loop-append rest chunks ((c ∷ cs) ++ (a ∷ [])) (n + (len a + 1)))
      ]

  concat-chunk_loop :
      (arguments current : List A) (n : ℕ)
      → concat (chunk_loop arguments [] current n) ≡ current ++ arguments
  unfolding chunk_loop
  concat-chunk_loop [] [] n = refl
  concat-chunk_loop [] (c ∷ cs) n = refl
  concat-chunk_loop (a ∷ rest) [] n = concat-chunk_loop rest (a ∷ []) (n + (len a + 1))
  concat-chunk_loop (a ∷ rest) (c ∷ cs) n = elim (Bool-cases (ltb max_chars (n + (len a + 1)))) [
    | inl over ↦ rw over (
        ap concat (chunk_loop-append rest ((c ∷ cs) ∷ []) (a ∷ []) (len a + 1))
        ∙ ap (λ l. (c ∷ cs) ++ l) (concat-chunk_loop rest (a ∷ []) (len a + 1)))
    | inr fits ↦ rw fits (
        concat-chunk_loop rest ((c ∷ cs) ++ (a ∷ [])) (n + (len a + 1))
        ∙ append_assoc (c ∷ cs) (a ∷ []) rest)
  ]

  -- The chunks of a loop that goes on with a chunk of its own.
  abbrev Starts : A → List (List A) → Type ℓ
  Starts b cs = (e : List A) × (ds : List (List A)) × (cs ≡ (b ∷ e) ∷ ds) × AreChunks ((b ∷ e) ∷ ds)

  chunk_loop-Starts :
      (arguments d : List A) (b : A) (n : ℕ)
      → n ≡ chars (b ∷ d)
      → Fits (b ∷ d)
      → Starts b (chunk_loop arguments [] (b ∷ d) n)
  unfolding chunk_loop
  chunk_loop-Starts [] d b n h f = (d, [], refl, last_one (b ∷ d) f)
  chunk_loop-Starts (a ∷ rest) d b n h f = elim (Bool-cases (ltb max_chars (n + (len a + 1)))) [
    | inl over ↦
        let (e, ds, p, q) =
          chunk_loop-Starts rest [] a (len a + 1) (omega arith) (omega arith, inr (omega arith)) in
        rw over (
          d,
          (a ∷ e) ∷ ds,
          chunk_loop-append rest ((b ∷ d) ∷ []) (a ∷ []) (len a + 1) ∙ ap (λ l. (b ∷ d) ∷ l) p,
          next_one (b ∷ d) e a ds f (ground (arith, h)) q,
        )
    | inr fits ↦
        let (e, ds, p, q) =
          chunk_loop-Starts rest (d ++ (a ∷ [])) b (n + (len a + 1))
            (omega (arith, h, chars-append d (a ∷ [])))
            (
              omega (arith, length-append d (a ∷ [])),
              inl (ground (arith, h, chars-append d (a ∷ []))),
            ) in
        rw fits (e, ds, p, q)
  ]

  chunks_AreChunks : (arguments : List A) → AreChunks (chunk_arguments arguments)
  unfolding chunk_arguments chunk_loop
  chunks_AreChunks [] = no_chunk
  chunks_AreChunks (a ∷ rest) =
      let (e, ds, p, q) =
        chunk_loop-Starts rest [] a (0 + (len a + 1)) (omega arith)
          (omega arith, inr (omega arith)) in
      subst AreChunks (sym p) q

  -- The chunks, one after the other, are the arguments. No chunk is empty, each keeps to the limit or
  -- is a single argument, and none could have taken the argument that follows it.
  pub chunk_arguments-AreChunks :
      (arguments : List A)
      → (concat (chunk_arguments arguments) ≡ arguments) × AreChunks (chunk_arguments arguments)
  unfolding chunk_arguments
  chunk_arguments-AreChunks arguments =
      (concat-chunk_loop arguments [] 0, chunks_AreChunks arguments)

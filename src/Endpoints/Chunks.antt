-- ===== src/Endpoints/Chunks.antt =====
-- The shared block of server.py after a body has arrived: how it was cut into chunks has no effect.
use donut_server.Prelude.{
  ℕ, ◌+◌, ◌≤◌, ◌≡◌, refl, sym, ap, ◌∙◌, ◌⊎◌, inl, inr, false, some, List, [], ◌∷◌, ◌++◌, arith,
  if◌then◌else◌, ltb, leb, length, drop, length-append, append_assoc, append-nil,
  take-append_length, drop-append_length, length-drop, subst, Bool-cases,
}
use donut_server.Bytes.{Bytes, drop-add}
use donut_server.Protocol.{header_size}
use donut_server.Endpoints.Receive.{absorb, receive_header, receive_rest}

-- the body
abbrev pub join : List Bytes → Bytes
join [] = []
join (chunk ∷ chunks) = chunk ++ join chunks

drop-append : (xs ys : Bytes) (n : ℕ) → drop (length xs + n) (xs ++ ys) ≡ drop n ys
drop-append xs ys n = rw (drop-add, drop-append_length xs ys) refl

-- a chunk that fits behind what has arrived
absorb-append :
    (prefix tail chunk : Bytes)
    → length chunk ≤ length tail
    → absorb (prefix ++ tail) (length prefix) chunk
      ≡ some ((prefix ++ chunk) ++ drop (length chunk) tail, length (prefix ++ chunk))
unfolding absorb
absorb-append prefix tail chunk h =
    let total = length-append prefix tail in
    let size = length-append prefix chunk in
    let fits : ltb (length (prefix ++ tail)) (length prefix + length chunk) ≡ false =
      ground (arith, total) in
    rw
      (
        fits,
        if◌then◌else◌,
        take-append_length prefix tail,
        drop-append prefix tail (length chunk),
        append_assoc prefix chunk (drop (length chunk) tail),
        size,
      )
      refl

-- the block after chunks that fit
abbrev after_chunks : Bytes → Bytes → Bytes → Bytes × ℕ
after_chunks prefix tail taken =
    ((prefix ++ taken) ++ drop (length taken) tail, length (prefix ++ taken))

after_chunks-append :
    (prefix tail chunk more : Bytes)
    → after_chunks (prefix ++ chunk) (drop (length chunk) tail) more
      ≡ after_chunks prefix tail (chunk ++ more)
after_chunks-append prefix tail chunk more =
    rw
      (
        length-append chunk more,
        drop-add (length chunk) (length more) tail,
        append_assoc prefix chunk more,
      )
      refl

pub receive_rest-append :
    (chunks : List Bytes) (prefix tail : Bytes)
    → length (join chunks) ≤ length tail
    → receive_rest (prefix ++ tail) (length prefix) chunks
      ≡ some (after_chunks prefix tail (join chunks))
unfolding receive_rest
receive_rest-append [] prefix tail h = rw (append-nil prefix) refl
receive_rest-append (chunk ∷ chunks) prefix tail h =
    let size = length-append chunk (join chunks) in
    let cut = length-drop (length chunk) tail in
    let ih =
      receive_rest-append chunks (prefix ++ chunk) (drop (length chunk) tail)
        (omega (arith, size, cut)) in
    let both : after_chunks (prefix ++ chunk) (drop (length chunk) tail) (join chunks)
        ≡ after_chunks prefix tail (chunk ++ join chunks) =
      after_chunks-append prefix tail chunk (join chunks) in
    rw (absorb-append prefix tail chunk (omega (arith, size)), receive_rest) (ih ∙ ap some both)

-- The first loop takes some chunks of the body, and stops behind the header or at the end.
pub receive_header-append :
    (chunks : List Bytes) (prefix tail : Bytes)
    → length (join chunks) ≤ length tail
    → (taken : Bytes) × (rest : List Bytes) × (receive_header
          (prefix ++ tail)
          (length prefix)
          chunks
        ≡ some ((prefix ++ taken) ++ drop (length taken) tail, length (prefix ++ taken), rest))
      × (join chunks ≡ taken ++ join rest)
      × ((rest ≡ []) ⊎ (header_size ≤ length (prefix ++ taken)))
unfolding receive_header
receive_header-append [] prefix tail h = ([], [], rw (append-nil prefix) refl, refl, inl refl)
receive_header-append (chunk ∷ chunks) prefix tail h =
    let size = length-append chunk (join chunks) in
    let cut = length-drop (length chunk) tail in
    let absorbed = absorb-append prefix tail chunk (omega (arith, size)) in
    elim (Bool-cases (leb header_size (length (prefix ++ chunk)))) [
      | inl enough ↦ (
        chunk,
        chunks,
        rw (absorbed, receive_header, enough, if◌then◌else◌) refl,
        refl,
        inr (ground arith),
      )
      | inr more ↦
          let (taken, rest, e, split, stop) =
            receive_header-append chunks (prefix ++ chunk) (drop (length chunk) tail)
              (omega (arith, size, cut)) in
          (
            chunk ++ taken,
            rest,
            rw (absorbed, receive_header, more, if◌then◌else◌)
                (e ∙ ap (λ p. some (p.0, p.1, rest)) (after_chunks-append prefix tail chunk taken)),
            ap (λ x. chunk ++ x) split ∙ sym (append_assoc chunk taken (join rest)),
            elim stop [
              | inl e ↦ inl e
              | inr l ↦
                  inr (subst (λ xs. header_size ≤ length xs) (append_assoc prefix chunk taken) l)
            ],
          )
    ]

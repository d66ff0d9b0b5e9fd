-- ===== src/Usb/Endpoints/Receive.antt =====
-- targets/stm32-otgfs/usb/DeviceEndpoints.cpp: what a received packet leaves in the buffer.
use lib_stm.Base.{
  ℕ, zero, suc, ◌+◌, ◌*◌, ◌/◌, ◌%◌, ◌≤◌, ◌<◌, ◌==◌, ==_iff, leb, min, ◌≡◌, refl, sym, ap, ◌∙◌, true,
  false, Bool-cases, inl, inr, List, [], ◌∷◌, ◌++◌, length, take, length-take, arith,
}
use lib_stm.Usb.Endpoints.{
  OutEndpoint, word_bytes, read_words, filled_buffer, reads, packet_received,
}

length-read_words : (fifo : ℕ → ℕ) (i n : ℕ) → length (read_words fifo i n) ≡ n * 4
unfolding read_words
length-read_words fifo i zero = refl
length-read_words fifo i (suc n) = omega (arith, length-read_words fifo (suc i) n)

take-append_left : (n : ℕ) (xs ys : List ℕ) → n ≤ length xs → take n (xs ++ ys) ≡ take n xs
take-append_left zero xs ys h = refl
take-append_left (suc n) [] ys h = absurd (omega arith)
take-append_left (suc n) (x ∷ xs) ys h = ap (λ l. x ∷ l) (take-append_left n xs ys (omega arith))

take-take : (m n : ℕ) (xs : List ℕ) → take m (take n xs) ≡ take (min m n) xs
take-take zero n xs = let e : min 0 n ≡ 0 = omega arith in rw e
take-take (suc m) zero xs = let e : min (suc m) 0 ≡ 0 = omega arith in rw e
take-take (suc m) (suc n) [] = let e : min (suc m) (suc n) ≡ suc (min m n) = omega arith in rw e
take-take (suc m) (suc n) (x ∷ xs) =
    let e : min (suc m) (suc n) ≡ suc (min m n) = omega arith in
    rw e (ap (λ l. x ∷ l) (take-take m n xs))

-- The first `k` words and `r` bytes of the next one are the first bytes of all the words.
take-read_words :
    (fifo : ℕ → ℕ) (i k r n : ℕ)
    → k < n
    → r ≤ 4
    → read_words fifo i k ++ take r (word_bytes (fifo (i + k)))
      ≡ take (k * 4 + r) (read_words fifo i n)
unfolding read_words
take-read_words fifo i k r zero h s = absurd (omega arith)
take-read_words fifo i zero r (suc n) h s =
    let e : i + 0 ≡ i = omega arith in
    let e' : 0 * 4 + r ≡ r = omega arith in
    rw (e, e') (sym (take-append_left r (word_bytes (fifo i)) _ s))
take-read_words fifo i (suc k) r (suc n) h s =
    let e : i + suc k ≡ suc i + k = omega arith in
    let e' : suc k * 4 + r ≡ suc (suc (suc (suc (k * 4 + r)))) = omega arith in
    rw (e, e')
      (ap (λ l. word_bytes (fifo i) ++ l) (take-read_words fifo (suc i) k r n (omega arith) s))

-- A buffer of `length` bytes that is shorter than the words gets their first bytes.
filled-short :
    (fifo : ℕ → ℕ) (i n : ℕ) (buffer : List ℕ)
    → leb (n * 4) (length buffer) ≡ false
    → filled_buffer fifo i n buffer ≡ take (length buffer) (read_words fifo i n)
unfolding filled_buffer
filled-short fifo i n buffer h = elim (Bool-cases (length buffer % 4 == 0)) [
  | inl even ↦
      let r : length buffer % 4 ≡ 0 = (==_iff _ 0).0 even in
      rw (h, even)
        (take-read_words fifo i (length buffer / 4) 0 n fits (omega arith)
          ∙ ap (λ m. take m (read_words fifo i n)) (omega arith))
  | inr odd ↦
      rw (h, odd)
        (take-read_words fifo i (length buffer / 4) (length buffer % 4) n fits (omega arith)
          ∙ ap (λ m. take m (read_words fifo i n)) (omega arith))
]
  where
    fits : length buffer / 4 < n
    fits = ground arith

filled-long :
    (fifo : ℕ → ℕ) (i n size : ℕ) (buffer : List ℕ)
    → leb (n * 4) (length buffer) ≡ true
    → size ≤ n * 4
    → take size (filled_buffer fifo i n buffer) ≡ take size (read_words fifo i n)
unfolding filled_buffer
filled-long fifo i n size buffer h s =
    rw h (take-append_left size (read_words fifo i n) _ (omega (arith, length-read_words fifo i n)))

reads_lem : (n : ℕ) (buffer : List ℕ) → reads n buffer ≡ n
unfolding reads
reads_lem n buffer = ground arith

-- A received packet of `size` bytes takes just its words out of the FIFO, whatever the buffer, so
-- that the next packet starts at its own first word; the buffer then holds the packet's bytes, or
-- the first of them if it is shorter than the packet, and is cut to them.
pub packet_received_lem :
    (fifo : ℕ → ℕ) (size : ℕ) (e : OutEndpoint)
    → let n = (size + 3) / 4 in
      let f = packet_received fifo size e in
      (f.fifo_read ≡ e.fifo_read + n)
      × (f.packet_buffer ≡ take (min size (length e.packet_buffer)) (read_words fifo e.fifo_read n))
      × (length f.packet_buffer ≡ min size (length e.packet_buffer))
unfolding packet_received
packet_received_lem fifo size e = (
  ap (λ m. e.fifo_read + m) (reads_lem n e.packet_buffer),
  content,
  ap length content
      ∙ length-take (min size (length e.packet_buffer)) _
      ∙ omega (arith, length-read_words fifo e.fifo_read n),
)
  where
    n : ℕ
    n = (size + 3) / 4

    content :
        take size (filled_buffer fifo e.fifo_read n e.packet_buffer)
        ≡ take (min size (length e.packet_buffer)) (read_words fifo e.fifo_read n)
    content = elim (Bool-cases (leb (n * 4) (length e.packet_buffer))) [
      | inl long ↦
          filled-long fifo e.fifo_read n size e.packet_buffer long (omega arith)
          ∙ ap (λ m. take m (read_words fifo e.fifo_read n)) (ground arith)
      | inr short ↦
          rw (filled-short fifo e.fifo_read n e.packet_buffer short)
            (take-take size (length e.packet_buffer) _)
    ]

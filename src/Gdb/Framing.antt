-- ===== src/Gdb/Framing.antt =====
-- Frames of the protocol, as src/gdb/gdb_stub.c reads them: what stands between `$` and `#` is the
-- string that `handle_packet` gets.
use uc_vm.Common.{
  ℕ, suc, ◌+◌, ◌-◌, ◌<◌, ◌≡◌, ◌≢◌, ◌∙◌, refl, ap, ap₂, arith, true, false, List, [], ◌∷◌, ◌++◌,
  length, update, if◌then◌else◌, ◌==◌, ltb, update_self, Mem8,
}
use uc_vm.Gdb.Stub.{TargetOps, Gdb, send_raw, gdb_buf_size}
use uc_vm.Gdb.Packets.{handle_packet}
use uc_vm.Gdb.Poll.{
  bytes, chars, store_char, poll_listen, end_packet, feed_char, feed, poll_client, gdb_poll,
}
use uc_vm.Gdb.Digits.{All}

unequal : (a b : ℕ) → a ≢ b → (a == b) ≡ false
unequal a b h = ground (arith, h)

in_room : (a b : ℕ) → a < b → ltb a b ≡ true
in_room a b h = ground (arith, h)

-- A character that means nothing to the framing.
abbrev pub IsPlain : ℕ → Type 0
IsPlain c = (c ≢ b'#') × (c ≢ 3) × (c ≢ b'$') × (c ≢ b'+') × (c ≢ b'-')

-- The buffer with characters from index `i` on.
abbrev pub put_chars : Mem8 → ℕ → List ℕ → Mem8
put_chars buf i [] = buf
put_chars buf i (c ∷ s) = put_chars (update buf i c) (i + 1) s

put_chars-below : (buf : Mem8) (i : ℕ) (s : List ℕ) (k : ℕ) → k < i → put_chars buf i s k ≡ buf k
put_chars-below buf i [] k h = refl
put_chars-below buf i (c ∷ s) k h =
    put_chars-below (update buf i c) (i + 1) s k (omega (arith, h)) ∙ ground (arith, h)

chars-put_chars :
    (buf : Mem8) (i : ℕ) (s : List ℕ) (m : ℕ)
    → chars (put_chars buf i s) i (length s + m) ≡ s ++ chars (put_chars buf i s) (i + length s) m
chars-put_chars buf i [] m = ap₂ (λ k n. chars buf k n) (omega arith) (omega arith)
chars-put_chars buf i (c ∷ s) m =
    let more = put_chars (update buf i c) (i + 1) s in
    let count : suc (length s) + m ≡ suc (length s + m) = omega arith in
    let here : more i ≡ c =
      put_chars-below (update buf i c) (i + 1) s i (omega arith) ∙ update_self buf i c in
    ap (chars more i) count
    ∙ ap₂ (λ a b. a ∷ b) here
        (chars-put_chars (update buf i c) (i + 1) s m ∙ ap (λ k. s ++ chars more k m) (omega arith))

-- One character more behind them.
put_chars-snoc :
    (buf : Mem8) (i : ℕ) (s : List ℕ) (c : ℕ)
    → update (put_chars buf i s) (i + length s) c ≡ put_chars buf i (s ++ (c ∷ []))
put_chars-snoc buf i [] c = ap (λ k. update buf k c) (omega arith)
put_chars-snoc buf i (d ∷ s) c =
    ap (λ k. update (put_chars (update buf i d) (i + 1) s) k c) (omega arith)
    ∙ put_chars-snoc (update buf i d) (i + 1) s c

length-snoc : (s : List ℕ) (c : ℕ) → length (s ++ (c ∷ [])) ≡ length s + 1
length-snoc [] c = refl
length-snoc (d ∷ s) c = ap suc (length-snoc s c) ∙ omega arith

snoc_assoc : (s : List ℕ) (c : ℕ) (t : List ℕ) → (s ++ (c ∷ [])) ++ t ≡ s ++ (c ∷ t)
snoc_assoc [] c t = refl
snoc_assoc (d ∷ s) c t = ap (λ u. d ∷ u) (snoc_assoc s c t)

-- What a buffer of `n` characters holds once a string is in it and ended by a NUL: the string, the
-- NUL, and what was there before.
abbrev pub ended : Mem8 → List ℕ → ℕ → List ℕ
ended buf s n =
    s ++ (0 ∷ chars (put_chars buf 0 (s ++ (0 ∷ []))) (length s + 1) (n - (length s + 1)))

chars-ended :
    (buf : Mem8) (s : List ℕ) (n : ℕ)
    → length s < n
    → chars (put_chars buf 0 (s ++ (0 ∷ []))) 0 n ≡ ended buf s n
chars-ended buf s n h =
    let all = put_chars buf 0 (s ++ (0 ∷ [])) in
    let m = n - (length s + 1) in
    ap (chars all 0) (omega (arith, h, length-snoc s 0))
    ∙ chars-put_chars buf 0 (s ++ (0 ∷ [])) m
    ∙ ap (λ k. (s ++ (0 ∷ [])) ++ chars all k m) (omega (arith, length-snoc s 0))
    ∙ snoc_assoc s 0 (chars all (length s + 1) m)

-- The stub with `s` in its buffer, and the frame acknowledged.
abbrev pub received : {Target : Type 0} → Gdb Target → List ℕ → Gdb Target
received g s = record g {
  buf = put_chars g.buf 0 (s ++ (0 ∷ []));
  buf_len = length s;
  sent = (43 ∷ []) ∷ g.sent;
}

module _ {Target : Type 0} (ops : TargetOps Target) where
  feed_char-plain :
      (c : ℕ) (g : Gdb Target)
      → IsPlain c
      → g.buf_len < 1023
      → feed_char ops g c ≡ record g { buf = update g.buf g.buf_len c; buf_len = g.buf_len + 1 }
  unfolding feed_char store_char
  feed_char-plain c g (nh, n3, nd, np, nm) h =
      rw (unequal c 3 n3, unequal c _ np, unequal c _ nm, unequal c _ nd, in_room g.buf_len 1023 h)
        refl

  feed-plain :
      (s rest : List ℕ) (g : Gdb Target)
      → All IsPlain s
      → g.buf_len + length s < 1024
      → feed ops 0 (s ++ rest) g
        ≡ feed ops 0 rest
            (record g { buf = put_chars g.buf g.buf_len s; buf_len = g.buf_len + length s })
  unfolding feed
  feed-plain [] rest g v h = ap (λ k. feed ops 0 rest (record g { buf_len = k })) (omega arith)
  feed-plain (c ∷ s) rest g (p, v) h =
      let g1 = record g { buf = update g.buf g.buf_len c; buf_len = g.buf_len + 1 } in
      let one : feed ops 0 (c ∷ (s ++ rest)) g ≡ feed ops 0 (s ++ rest) g1 =
        ap
          (λ b.
            feed ops (if b then 2 else 0) (s ++ rest)
              (if b then end_packet ops g else feed_char ops g c))
          (unequal c 35 p.0)
        ∙ ap (feed ops 0 (s ++ rest)) (feed_char-plain c g p (omega (arith, h))) in
      one
      ∙ feed-plain s rest g1 v (omega (arith, h))
      ∙ ap (λ k. feed ops 0 rest (record g1 { buf = put_chars g1.buf g1.buf_len s; buf_len = k }))
          (omega arith)

  end_packet-put_chars :
      (g : Gdb Target) (s : List ℕ)
      → g.has_client ≡ true
      → length s < 1024
      → end_packet ops (record g { buf = put_chars g.buf 0 s; buf_len = 0 + length s })
        ≡ handle_packet ops (received g s) (ended g.buf s gdb_buf_size) (length s)
  unfolding end_packet send_raw
  end_packet-put_chars g s client h =
      let all = put_chars g.buf 0 (s ++ (0 ∷ [])) in
      let ready : (b : Mem8) → ℕ → Gdb Target =
        λ b n. record g { buf = b; buf_len = n; sent = (43 ∷ []) ∷ g.sent } in
      ap
        (λ b.
          let g1 =
            (if b
              then record g {
                buf = update (put_chars g.buf 0 s) (0 + length s) 0;
                buf_len = 0 + length s;
                sent = (43 ∷ []) ∷ g.sent;
              }
              else record g {
                buf = update (put_chars g.buf 0 s) (0 + length s) 0;
                buf_len = 0 + length s;
              }) in
          handle_packet ops g1 (chars g1.buf 0 gdb_buf_size) g1.buf_len)
        client
      ∙ ap (λ b. handle_packet ops (ready b (0 + length s)) (chars b 0 gdb_buf_size) (0 + length s))
          (put_chars-snoc g.buf 0 s 0)
      ∙ ap (λ n. handle_packet ops (ready all n) (chars all 0 gdb_buf_size) n) (omega arith)
      ∙ ap (λ t. handle_packet ops (received g s) t (length s)) (chars-ended g.buf s gdb_buf_size h)

  -- With a client that sends, in one read, a frame `$s#xy` whose string has fewer than 1024
  -- characters, none of them ^C or one of `$`, `#`, `+`, `-`, a poll acknowledges the frame
  -- and handles exactly that string, ended by a NUL, whatever was in the buffer before and
  -- whatever the two characters of the checksum are.
  pub gdb_poll-frame :
      (g : Gdb Target) (s : List ℕ) (x y : ℕ)
      → g.has_client ≡ true
      → All IsPlain s
      → length s < 1024
      → gdb_poll ops (bytes (b'$' ∷ (s ++ (b'#' ∷ x ∷ y ∷ [])))) g
        ≡ handle_packet ops (received g s) (ended g.buf s gdb_buf_size) (length s)
  unfolding gdb_poll poll_client feed feed_char
  gdb_poll-frame g s x y client v h =
      let frame = bytes (b'$' ∷ (s ++ (b'#' ∷ x ∷ y ∷ []))) in
      ap (λ b. if b then poll_client ops frame g else poll_listen ops frame g) client
      ∙ feed-plain s _ (record g { buf_len = 0 }) v (omega (arith, h))
      ∙ end_packet-put_chars g s client h

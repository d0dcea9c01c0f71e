-- ===== src/Acp/Packet/Check.antt =====
-- lib/acp/main.c: the length and the checksum of a packet, found by its delimiters.
use regonf.Prelude.{
  ℕ, ◌+◌, ◌<◌, ◌≡◌, ◌≢◌, refl, sym, ap, ◌∙◌, false, List, [], ◌∷◌, ◌++◌, arith, ◌==◌, if◌then◌else◌,
  All, length, length-append,
}
use regonf.Crc.{crc_update, crc_update_by_str}
use regonf.Crc.Detect.{AreBytes, crc_update_by_str-append, crc_update_by_str-detects}
use regonf.Acp.Packet.{
  PacklenState, block1, block2, block3, at_crc, after_block, packlen_loop, packlen, is_crc,
  crc_check_loop, crc_check, delimiter_block, close_block,
}
use regonf.Prelude.{append_assoc}

-- No delimiter of blocks
abbrev pub IsBlock : List ℕ → Type 0
IsBlock = All (λ b. b ≢ delimiter_block)

-- Three blocks with their delimiters
abbrev pub three : List ℕ → List ℕ → List ℕ → List ℕ
three a b c = close_block a (close_block b (close_block c []))

close_block-append : (a xs rest : List ℕ) → close_block a xs ++ rest ≡ close_block a (xs ++ rest)
close_block-append a xs rest = append_assoc a (delimiter_block ∷ xs) rest

pub three-append :
    (a b c rest : List ℕ) → three a b c ++ rest ≡ close_block a (close_block b (close_block c rest))
three-append a b c rest =
    close_block-append a (close_block b (close_block c [])) rest
    ∙ ap (close_block a) (
        close_block-append b (close_block c []) rest
        ∙ ap (close_block b) (close_block-append c [] rest))

-- A state that a block does not leave but by its delimiter
abbrev StaysIn : PacklenState → PacklenState → Type 0
StaysIn here next =
    (b : ℕ) (bs : List ℕ) (n : ℕ)
    → packlen_loop here n (b ∷ bs) ≡ packlen_loop (after_block b here next) (n + 1) bs

packlen_loop-block :
    (here next : PacklenState)
    → StaysIn here next
    → (a rest : List ℕ) (n : ℕ) → IsBlock a
    → packlen_loop here n (close_block a rest) ≡ packlen_loop next (n + length a + 1) rest
packlen_loop-block here next st [] rest n h =
    st delimiter_block rest n ∙ ap (λ k. packlen_loop next k rest) {x = n + 1} (omega arith)
packlen_loop-block here next st (b ∷ a) rest n h =
    st b (close_block a rest) n
    ∙ ap (λ t. packlen_loop t (n + 1) (close_block a rest)) (ground arith)
    ∙ packlen_loop-block here next st a rest (n + 1) h.1
    ∙ ap (λ k. packlen_loop next k rest) {x = n + 1 + length a + 1} (omega arith)

-- The length of a packet is that of its three blocks, none of which has a delimiter in it, and two
-- more for the checksum and the NUL, whatever byte the checksum is.
pub packlen-three :
    (a b c rest : List ℕ) (x y : ℕ)
    → IsBlock a
    → IsBlock b
    → IsBlock c
    → packlen (three a b c ++ x ∷ y ∷ rest) ≡ length (three a b c) + 2
unfolding packlen
packlen-three a b c rest x y ha hb hc =
    ap (packlen_loop block1 0) (three-append a b c (x ∷ y ∷ rest))
    ∙ packlen_loop-block block1 block2 (λ b bs n. refl) a _ 0 ha
    ∙ packlen_loop-block block2 block3 (λ b bs n. refl) b _ _ hb
    ∙ packlen_loop-block block3 at_crc (λ b bs n. refl) c _ _ hc
    ∙ omega (
      arith,
      length-append a (delimiter_block ∷ close_block b (close_block c [])),
      length-append b (delimiter_block ∷ close_block c []),
      length-append c (delimiter_block ∷ []),
    )

crc_check_loop-block :
    (a rest : List ℕ) (n f : ℕ)
    → n < 3
    → IsBlock a
    → let f' = crc_update_by_str f (close_block a []) in
      crc_check_loop n f (close_block a rest)
      ≡ (if n + 1 == 3 then is_crc f' rest else crc_check_loop (n + 1) f' rest)
unfolding crc_check_loop crc_update_by_str
crc_check_loop-block [] rest n f l h = refl
crc_check_loop-block (b ∷ a) rest n f l h =
    ground (arith, crc_check_loop-block a rest n (crc_update f b) l h.1)

crc-close_block :
    (a xs : List ℕ) (f : ℕ)
    → crc_update_by_str (crc_update_by_str f (close_block a [])) xs
      ≡ crc_update_by_str f (close_block a xs)
crc-close_block a xs f =
    sym (crc_update_by_str-append (close_block a []) xs f)
    ∙ ap (crc_update_by_str f) (close_block-append a [] xs)

crc-three :
    (a b c : List ℕ)
    → crc_update_by_str
        (crc_update_by_str (crc_update_by_str 0 (close_block a [])) (close_block b []))
        (close_block c [])
      ≡ crc_update_by_str 0 (three a b c)
crc-three a b c =
    crc-close_block b (close_block c []) (crc_update_by_str 0 (close_block a []))
    ∙ crc-close_block a (close_block b (close_block c [])) 0

pub crc_check-three :
    (a b c rest : List ℕ) (x : ℕ)
    → IsBlock a
    → IsBlock b
    → IsBlock c
    → crc_check (three a b c ++ x ∷ rest) ≡ (x == crc_update_by_str 0 (three a b c))
unfolding crc_check is_crc
crc_check-three a b c rest x ha hb hc =
    let f1 = crc_update_by_str 0 (close_block a []) in
    let f2 = crc_update_by_str f1 (close_block b []) in
    ap (crc_check_loop 0 0) (three-append a b c (x ∷ rest))
    ∙ crc_check_loop-block a _ 0 0 (omega arith) ha
    ∙ crc_check_loop-block b _ 1 f1 (omega arith) hb
    ∙ crc_check_loop-block c _ 2 f2 (omega arith) hc
    ∙ ap (λ t. x == t) (crc-three a b c)

-- A packet in which one byte of the three blocks was changed into another one, and the blocks are
-- delimited as before, does not pass the check of its checksum.
pub crc_check-detects :
    (a b c before after rest : List ℕ) (x y sent : ℕ)
    → IsBlock a
    → IsBlock b
    → IsBlock c
    → AreBytes before
    → AreBytes after
    → x < 256
    → y < 256
    → x ≢ y
    → three a b c ≡ before ++ y ∷ after
    → sent ≡ crc_update_by_str 0 (before ++ x ∷ after)
    → crc_check (three a b c ++ sent ∷ rest) ≡ false
crc_check-detects a b c before after rest x y sent ha hb hc hf hg lx ly n e es =
    let differs : sent ≢ crc_update_by_str 0 (three a b c) = λ same.
      crc_update_by_str-detects before after x y hf hg lx ly n
        (sym es ∙ same ∙ ap (crc_update_by_str 0) e) in
    crc_check-three a b c rest sent ha hb hc ∙ ground (arith, differs)

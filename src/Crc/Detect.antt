-- ===== src/Crc/Detect.antt =====
-- lib/crc.c: a changed byte changes the checksum. The checksum of a byte depends only on the
-- exclusive or of the byte and the checksum so far, and each step on it can be undone.
use Prim.Native.Nat.{bit_and, bit_xor}
use regonf.Prelude.{
  ℕ, zero, suc, ◌+◌, ◌*◌, ◌/◌, ◌^◌, ◌<◌, ◌≡◌, ◌≢◌, refl, sym, ap, ◌∙◌, Bool, true, false, ◌==◌,
  List, [], ◌∷◌, ◌++◌, arith, ltb, if◌then◌else◌, All,
}
use regonf.Prelude.Bits.{
  bit_xor_parts, bit_xor_assoc, bit_xor_self, bit_xor_comm, bit_xor-lt, zero-bit_xor,
}
use regonf.Crc.{crc_bit, crc_loop, crc_update, crc_update_by_str}

-- One step on the exclusive or of the checksum and the byte, and what undoes it
shift : ℕ → ℕ
shift x = if bit_and x 1 == 1 then bit_xor (x / 2) 0x8c else x / 2

unshift : ℕ → ℕ
unshift y = if ltb y 128 then y * 2 else bit_xor y 0x8c * 2 + 1

shifts : ℕ → ℕ → ℕ
shifts zero x = x
shifts (suc n) x = shifts n (shift x)

-- Whether the step is undone on every number below a bound
undone : ℕ → Bool
undone zero = true
undone (suc k) = let before = undone k in if unshift (shift k) == k then before else false

undone-byte : undone 256 ≡ true
unfolding undone unshift shift
undone-byte = refl

undone_lem : (k x : ℕ) → undone k ≡ true → x < k → unshift (shift x) ≡ x
unfolding undone
undone_lem zero x h l = ground arith
undone_lem (suc k) x h l = ground (arith, undone_lem k x)

unshift-shift : (x : ℕ) → x < 256 → unshift (shift x) ≡ x
unshift-shift x l = undone_lem 256 x undone-byte l

shift-lt : (x : ℕ) → x < 256 → shift x < 256
unfolding shift
shift-lt x l = ground (arith, bit_xor-lt 8 (x / 2) 0x8c (omega arith) (omega arith))

shifts_injective : (n x y : ℕ) → x < 256 → y < 256 → shifts n x ≡ shifts n y → x ≡ y
unfolding shifts
shifts_injective zero x y lx ly h = h
shifts_injective (suc n) x y lx ly h =
    let e = shifts_injective n (shift x) (shift y) (shift-lt x lx) (shift-lt y ly) h in
    sym (unshift-shift x lx) ∙ ap unshift e ∙ unshift-shift y ly

bit_xor_swap : (a b k : ℕ) → bit_xor (bit_xor a k) b ≡ bit_xor (bit_xor a b) k
bit_xor_swap a b k =
    bit_xor_assoc a k b ∙ ap (bit_xor a) (bit_xor_comm k b) ∙ sym (bit_xor_assoc a b k)

-- The loop keeps the exclusive or of the checksum and the byte in step.
crc_bit_lem : (c b : ℕ) → bit_xor (crc_bit c b) (b / 2) ≡ shift (bit_xor c b)
unfolding crc_bit shift
crc_bit_lem c b = ground (
  arith,
  (bit_xor_parts c b).0,
  bit_xor_swap (c / 2) (b / 2) 0x8c,
  ap (λ x. bit_xor x 0x8c) ((bit_xor_parts c b).0),
)

crc_loop_lem : (n c b : ℕ) → b < 2 ^ n → crc_loop n c b ≡ shifts n (bit_xor c b)
unfolding crc_loop shifts
crc_loop_lem zero c b l =
    let e : b ≡ 0 = omega arith in sym (ap (bit_xor c) e ∙ bit_xor_comm c 0 ∙ zero-bit_xor c)
crc_loop_lem (suc n) c b l =
    crc_loop_lem n (crc_bit c b) (b / 2) (omega arith) ∙ ap (shifts n) (crc_bit_lem c b)

crc_update_lem : (c b : ℕ) → b < 256 → crc_update c b ≡ shifts 8 (bit_xor c b)
unfolding crc_update
crc_update_lem c b l = crc_loop_lem 8 c b (omega arith)

bit_xor_cancel : (a x y : ℕ) → bit_xor a x ≡ bit_xor a y → x ≡ y
bit_xor_cancel a x y h = sym (undo x) ∙ ap (bit_xor a) h ∙ undo y
  where
    undo : (z : ℕ) → bit_xor a (bit_xor a z) ≡ z
    undo z = sym (bit_xor_assoc a a z) ∙ ap (λ t. bit_xor t z) (bit_xor_self a) ∙ zero-bit_xor z

shifts-lt : (n x : ℕ) → x < 256 → shifts n x < 256
unfolding shifts
shifts-lt zero x l = l
shifts-lt (suc n) x l = shifts-lt n (shift x) (shift-lt x l)

crc_update-lt : (c b : ℕ) → c < 256 → b < 256 → crc_update c b < 256
crc_update-lt c b lc lb =
    omega (arith, crc_update_lem c b lb, shifts-lt 8 (bit_xor c b) (bit_xor-lt 8 c b lc lb))

-- Bytes of a message
abbrev pub AreBytes : List ℕ → Type 0
AreBytes = All (λ b. b < 256)

pub crc_update_by_str-lt :
    (bs : List ℕ) (c : ℕ) → AreBytes bs → c < 256 → crc_update_by_str c bs < 256
unfolding crc_update_by_str
crc_update_by_str-lt [] c h l = l
crc_update_by_str-lt (b ∷ bs) c h l =
    crc_update_by_str-lt bs (crc_update c b) h.1 (crc_update-lt c b l h.0)

pub crc_update_by_str-append :
    (xs ys : List ℕ) (c : ℕ)
    → crc_update_by_str c (xs ++ ys) ≡ crc_update_by_str (crc_update_by_str c xs) ys
unfolding crc_update_by_str
crc_update_by_str-append [] ys c = refl
crc_update_by_str-append (x ∷ xs) ys c = crc_update_by_str-append xs ys (crc_update c x)

crc_update-injective :
    (c d b : ℕ) → c < 256 → d < 256 → b < 256 → crc_update c b ≡ crc_update d b → c ≡ d
crc_update-injective c d b lc ld lb h =
    let e =
      shifts_injective 8 (bit_xor c b) (bit_xor d b) (bit_xor-lt 8 c b lc lb)
        (bit_xor-lt 8 d b ld lb) (sym (crc_update_lem c b lb) ∙ h ∙ crc_update_lem d b lb) in
    bit_xor_cancel b c d (bit_xor_comm b c ∙ e ∙ bit_xor_comm d b)

crc_update_by_str-injective :
    (bs : List ℕ) (c d : ℕ)
    → AreBytes bs
    → c < 256
    → d < 256
    → crc_update_by_str c bs ≡ crc_update_by_str d bs
    → c ≡ d
unfolding crc_update_by_str
crc_update_by_str-injective [] c d h lc ld e = e
crc_update_by_str-injective (b ∷ bs) c d h lc ld e = crc_update-injective c d b lc ld h.0 (
    crc_update_by_str-injective bs (crc_update c b) (crc_update d b) h.1 (crc_update-lt c b lc h.0)
      (crc_update-lt d b ld h.0) e)

-- Two messages of bytes that differ in exactly one byte, with any bytes before and after it, have
-- different checksums.
pub crc_update_by_str-detects :
    (before after : List ℕ) (x y : ℕ)
    → AreBytes before
    → AreBytes after
    → x < 256
    → y < 256
    → x ≢ y
    → crc_update_by_str 0 (before ++ x ∷ after) ≢ crc_update_by_str 0 (before ++ y ∷ after)
unfolding crc_update_by_str
crc_update_by_str-detects before after x y hb ha lx ly n e =
    let c = crc_update_by_str 0 before in
    let lc : c < 256 = crc_update_by_str-lt before 0 hb (omega arith) in
    let e1 =
      crc_update_by_str-injective after (crc_update c x) (crc_update c y) ha
        (crc_update-lt c x lc lx) (crc_update-lt c y lc ly)
        (sym (crc_update_by_str-append before (x ∷ after) 0)
          ∙ e
          ∙ crc_update_by_str-append before (y ∷ after) 0) in
    let e2 =
      shifts_injective 8 (bit_xor c x) (bit_xor c y) (bit_xor-lt 8 c x lc lx)
        (bit_xor-lt 8 c y lc ly) (sym (crc_update_lem c x lx) ∙ e1 ∙ crc_update_lem c y ly) in
    n (bit_xor_cancel c x y e2)

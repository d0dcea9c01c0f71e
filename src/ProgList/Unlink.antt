-- ===== src/ProgList/Unlink.antt =====
-- db.c: a node is taken out of the list of programs that the heap holds.
use mathlib.Core.Path.{subst}
use regonf.Prelude.{
  ℕ, ◌+◌, ◌-◌, ◌%◌, ◌^◌, ◌<◌, ◌≡◌, refl, sym, ap, ◌∙◌, Option, none, some, List, [], ◌∷◌, ◌++◌,
  arith, if◌then◌else◌, All, length, length-append, Succeeds, append_nil,
}
use regonf.ProgList.{Prog, ProgList, Heap, store, set_next, is_same, unlink}
use regonf.ProgList.Chain.{
  IsFreed, store_same, first, final_from, final, Fresh, Represents, Chain-store, final_from-Fresh,
  Chain-relink, Chain-split, Distinct-split, Distinct-without, final-append,
}

-- `last` and `length` without a node
abbrev shrink : ProgList → (prev : Option ℕ) → ℕ → ProgList
shrink l prev c = record l {
  last = if is_same (some c) l.last then prev else l.last;
  length = (l.length + (2 ^ 64 - 1)) % 2 ^ 64;
}

module _ {F : Type 0} where
  last_lem :
      (ps : List (ℕ × Prog F)) (c : ℕ × Prog F) (cs : List (ℕ × Prog F))
      → Fresh c.0 cs
      → (if is_same (some (c.0)) (final (ps ++ c ∷ cs)) then final ps else final (ps ++ c ∷ cs))
        ≡ final (ps ++ cs)
  last_lem ps c [] f = ground (arith, final-append ps c [], ap final (append_nil ps))
  last_lem ps c (d ∷ cs) f =
      ground (
        arith,
        final-append ps c (d ∷ cs),
        final-append ps d cs,
        final_from-Fresh c.0 d.0 cs f.0 f.1,
      )

  All-tail :
      (ps : List (ℕ × Prog F)) (c : ℕ × Prog F) (cs : List (ℕ × Prog F))
      → All (λ e. Fresh e.0 (c ∷ cs)) ps
      → All (λ e. Fresh e.0 cs) ps
  All-tail [] c cs f = tt
  All-tail (e ∷ ps) c cs f = (f.0.1, All-tail ps c cs f.1)

  unlink-after :
      (h : Heap F) (l : ProgList) (z c : ℕ) (p q : Prog F)
      → h z ≡ some q
      → unlink (some z) c p h l
        ≡ some (store (store h z (some (record q { next = p.next }))) c none, shrink l (some z) c)
  unfolding unlink set_next
  unlink-after h l z c p q e = ground (arith, e)

  shrink_last :
      (l : ProgList) (ps : List (ℕ × Prog F)) (c : ℕ × Prog F) (cs : List (ℕ × Prog F))
      → l.last ≡ final (ps ++ c ∷ cs)
      → Fresh c.0 cs
      → (shrink l (final ps) c.0).last ≡ final (ps ++ cs)
  shrink_last l ps c cs e f =
      ap (λ t. if is_same (some (c.0)) t then final ps else t) e ∙ last_lem ps c cs f

  shrink_length :
      (l : ProgList) (ps : List (ℕ × Prog F)) (c : ℕ × Prog F) (cs : List (ℕ × Prog F))
      → l.length ≡ length (ps ++ c ∷ cs)
      → length (ps ++ c ∷ cs) < 2 ^ 31
      → ((shrink l (final ps) c.0).length ≡ length (ps ++ cs)) × (length (ps ++ cs) < 2 ^ 31)
  shrink_length l ps c cs e b =
      let f1 = length-append ps (c ∷ cs) in
      let f2 = length-append ps cs in (omega arith, omega arith)

  -- A node is unlinked and freed.
  pub unlink_lem :
      (h : Heap F) (l : ProgList) (ps : List (ℕ × Prog F)) (c : ℕ × Prog F) (cs : List (ℕ × Prog F))
      → Represents h l (ps ++ c ∷ cs)
      → Succeeds
          (λ r. IsFreed r.0 (some (c.0)) × Represents r.0 r.1 (ps ++ cs))
          (unlink (final ps) c.0 (record (c.1) { next = first cs }) h l)
  unfolding unlink
  unlink_lem h l [] c cs r = (
    store_same h c.0 none,
    record {
      top = refl;
      last = shrink_last l [] c cs r.last r.distinct.0;
      counted = (shrink_length l [] c cs r.counted r.bounded).0;
      bounded = (shrink_length l [] c cs r.counted r.bounded).1;
      chain = Chain-store h c.0 none cs r.chain.1 r.distinct.0;
      distinct = r.distinct.1;
    },
  )
  unlink_lem h l (e ∷ es) c cs r =
      let ps = e ∷ es in
      let (before, after, fresh) = Distinct-split ps (c ∷ cs) r.distinct in
      let (distinct, gone) = Distinct-without ps c cs r.distinct in
      let rest = Chain-split h ps (c ∷ cs) r.chain in
      let (q, eq, chain) =
        Chain-relink h e es (c ∷ cs) cs r.chain before rest.1 (All-tail ps c cs fresh) in
      let z = final_from e.0 es in
      subst (Succeeds (λ r. IsFreed r.0 (some (c.0)) × Represents r.0 r.1 (ps ++ cs)))
        (sym (unlink-after h l z c.0 (record (c.1) { next = first cs }) q eq))
        (
          store_same (store h z (some (record q { next = first cs }))) c.0 none,
          record {
            top = r.top;
            last = shrink_last l ps c cs r.last after.0;
            counted = (shrink_length l ps c cs r.counted r.bounded).0;
            bounded = (shrink_length l ps c cs r.counted r.bounded).1;
            chain = Chain-store _ c.0 none (ps ++ cs) chain gone;
            distinct = distinct;
          },
        )

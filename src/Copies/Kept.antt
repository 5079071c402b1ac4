-- ===== src/Copies/Kept.antt =====
-- What the allocations and the writes of a copying leave as it was.
use kong_portal_controller.Base.{ℕ, ◌+◌, ◌<◌, ◌≤◌, ◌≡◌, refl, ◌∙◌, List, [], ◌∷◌, arith, nat_eq}
use kong_portal_controller.Store.Cache.{Ref}
use kong_portal_controller.Copies.{KongFileFields, MetaFields, zero_kong_file, Heap, alloc, put}
use kong_portal_controller.Copies.Ranges.{read_meta, FileIn, AllIn, SameIn, Grown, RefIn-wider}

-- The addresses from `n` on, one for each element of the first list, and all before `top`.
abbrev pub IsRun : ℕ → ℕ → List Ref → List Ref → Type 0
IsRun n top [] [] = n ≤ top
IsRun n top (i ∷ is) (r ∷ rs) = (r ≡ n) × (n < top) × IsRun (n + 1) top is rs
IsRun n top [] (r ∷ rs) = ⊥
IsRun n top (i ∷ is) [] = ⊥

-- The second heap has changed no object before `n`, and no map and no number.
pub record Kept (n : ℕ) (h k : Heap) : Type 0 where
  pub more : h.next ≤ k.next
  pub kept : SameIn 0 n h.next h k

pub FileIn-wider :
    {lo n hi lo' n' hi' : ℕ} (h : Heap) (r : Ref)
    → lo' ≤ lo
    → n ≤ n'
    → hi ≤ hi'
    → FileIn lo n hi h r
    → FileIn lo' n' hi' h r
FileIn-wider h r a b c (low, high, (m, d)) = (
  omega arith,
  omega arith,
  (
    RefIn-wider (h.file r).meta.annotations a c m,
    RefIn-wider (h.file r).meta.deletion_timestamp a c d,
  ),
)

pub AllIn-wider :
    {lo n hi lo' n' hi' : ℕ} (h : Heap) (rs : List Ref)
    → lo' ≤ lo
    → n ≤ n'
    → hi ≤ hi'
    → AllIn lo n hi h rs
    → AllIn lo' n' hi' h rs
AllIn-wider h [] a b c i = tt
AllIn-wider h (r ∷ rs) a b c (i, is) = (FileIn-wider h r a b c i, AllIn-wider h rs a b c is)

pub SameIn-narrower :
    {lo n hi lo' n' hi' : ℕ} {h k : Heap}
    → lo ≤ lo'
    → n' ≤ n
    → hi' ≤ hi
    → SameIn lo n hi h k
    → SameIn lo' n' hi' h k
SameIn-narrower a b c s = record {
  file = λ q low high. s.file q (omega arith) (omega arith);
  map = λ q low high. s.map q (omega arith) (omega arith);
  number = λ q low high. s.number q (omega arith) (omega arith);
}

pub Kept-trans : {n : ℕ} {h k l : Heap} → n ≤ h.next → Kept n h k → Kept n k l → Kept n h l
Kept-trans below a b = record {
  more = omega (arith, a.more, b.more);
  kept = record {
    file = λ q low high. b.kept.file q low high ∙ a.kept.file q low high;
    map = λ q low high. b.kept.map q low (omega (arith, a.more)) ∙ a.kept.map q low high;
    number = λ q low high. b.kept.number q low (omega (arith, a.more)) ∙ a.kept.number q low high;
  };
}

pub Kept-lower : {n m : ℕ} {h k : Heap} → m ≤ n → Kept n h k → Kept m h k
Kept-lower below a = record {
  more = a.more;
  kept = SameIn-narrower (omega arith) below (omega arith) a.kept;
}

pub Kept-refl : (n : ℕ) (h : Heap) → Kept n h h
Kept-refl n h = record {
  more = omega arith;
  kept = record {
    file = λ q low high. refl;
    map = λ q low high. refl;
    number = λ q low high. refl;
  };
}

pub alloc-Kept : (h : Heap) → Kept h.next h (alloc zero_kong_file h).1
alloc-Kept h = record {
  more = omega arith;
  kept = record {
    file = λ q low high. ground arith;
    map = λ q low high. refl;
    number = λ q low high. refl;
  };
}

pub put-here : (r : Ref) (f : KongFileFields) (h : Heap) → (put r f h).file r ≡ f
put-here r f h = ground arith

pub put-read_meta :
    (r : Ref) (f : KongFileFields) (h : Heap) (m : MetaFields)
    → read_meta (put r f h) m ≡ read_meta h m
put-read_meta r f h m = refl

-- The object is written at `r` before and after something that only allocates.
pub put-Grown-Kept :
    (r : Ref) (f f' : KongFileFields) (h k : Heap)
    → r < h.next
    → Grown (put r f h) k
    → Kept r h (put r f' k)
put-Grown-Kept r f f' h k old g = record {
  more = g.more;
  kept = record {
    file = λ q low high. ground (arith, g.kept.file q low (omega arith));
    map = λ q low high. g.kept.map q low high;
    number = λ q low high. g.kept.number q low high;
  };
}

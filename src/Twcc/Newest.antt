-- ===== src/Twcc/Newest.antt =====
-- Which packets a report tells of.
use rsfu.Prelude.{
  ℕ, zero, suc, ◌+◌, ◌-◌, ◌≤◌, ◌<◌, ◌≡◌, ◌⊎◌, inl, inr, refl, sym, ap, ◌∙◌, Bool, true, false, List,
  [], ◌∷◌, ◌++◌, arith, ltb, ◌==◌, if◌then◌else◌, Bool-cases, subst,
}
use rsfu.Prelude.Int.{pos}
use rsfu.Twcc.{RtpExtInfo}
use rsfu.Twcc.Build.{insert, sort, missing, collect, first_of}

abbrev pub larger : ℕ → ℕ → ℕ
larger a b = if ltb a b then b else a

abbrev pub top : List RtpExtInfo → ℕ
top [] = 0
top (x ∷ xs) = larger x.ext_tsn (top xs)

-- The numbers fall, from `b` on.
abbrev Falls : ℕ → List RtpExtInfo → Type 0
Falls b [] = Unit {0}
Falls b (x ∷ xs) = (x.ext_tsn ≤ b) × Falls x.ext_tsn xs

insert-Falls :
    (x : RtpExtInfo) (ys : List RtpExtInfo) (b : ℕ)
    → x.ext_tsn ≤ b
    → Falls b ys
    → Falls b (insert x ys)
unfolding insert
insert-Falls x [] b h f = (h, tt)
insert-Falls x (y ∷ ys) b h (hy, f) = elim (Bool-cases (ltb x.ext_tsn y.ext_tsn)) [
  | inl e ↦ rw e (hy, insert-Falls x ys y.ext_tsn (ground arith) f)
  | inr e ↦ rw e (h, (ground arith, f))
]

first_of-insert :
    (x : RtpExtInfo) (ys : List RtpExtInfo)
    → first_of (insert x ys) ≡ larger x.ext_tsn (first_of ys)
unfolding insert
first_of-insert x [] = ground arith
first_of-insert x (y ∷ ys) = ground arith

first_of-sort : (xs : List RtpExtInfo) → first_of (sort xs) ≡ top xs
unfolding sort
first_of-sort [] = refl
first_of-sort (x ∷ xs) = first_of-insert x (sort xs) ∙ ap (larger x.ext_tsn) (first_of-sort xs)

Falls-weaken : (xs : List RtpExtInfo) (a b : ℕ) → a ≤ b → Falls a xs → Falls b xs
Falls-weaken [] a b h f = tt
Falls-weaken (x ∷ xs) a b h (hx, f) = (omega arith, f)

sort-Falls : (xs : List RtpExtInfo) → Falls (top xs) (sort xs)
unfolding sort
sort-Falls [] = tt
sort-Falls (x ∷ xs) =
    insert-Falls x (sort xs) (top (x ∷ xs)) (ground arith)
      (Falls-weaken (sort xs) (top xs) (top (x ∷ xs)) (ground arith) (sort-Falls xs))

-- Each entry stands for a packet that did not come, or has the number `t`.
abbrev pub OnlyNewest : ℕ → List RtpExtInfo → Type 0
OnlyNewest t [] = Unit {0}
OnlyNewest t (x ∷ xs) = ((x.timestamp ≡ pos 0) ⊎ (x.ext_tsn ≡ t)) × OnlyNewest t xs

OnlyNewest-append :
    (t : ℕ) (xs ys : List RtpExtInfo) → OnlyNewest t xs → OnlyNewest t ys → OnlyNewest t (xs ++ ys)
OnlyNewest-append t [] ys h k = k
OnlyNewest-append t (x ∷ xs) ys (hx, h) k = (hx, OnlyNewest-append t xs ys h k)

missing-OnlyNewest : (t n from : ℕ) → OnlyNewest t (missing n from)
unfolding missing
missing-OnlyNewest t zero from = tt
missing-OnlyNewest t (suc n) from = (inl refl, missing-OnlyNewest t n (from + 1))

gap-OnlyNewest : (w : Bool) (t n from : ℕ) → OnlyNewest t (if w then [] else missing n from)
gap-OnlyNewest true t n from = tt
gap-OnlyNewest false t n from = missing-OnlyNewest t n from

collect_old : (b last : ℕ) (xs : List RtpExtInfo) → b < last → Falls b xs → (collect last xs).1 ≡ []
unfolding collect
collect_old b last [] h f = refl
collect_old b last (x ∷ xs) h (hx, f) =
    let old : ltb x.ext_tsn last ≡ true = ground arith in
    rw old (collect_old x.ext_tsn last xs (omega arith) f)

collect_kept :
    (t last : ℕ) (x : RtpExtInfo) (xs : List RtpExtInfo)
    → ltb x.ext_tsn last ≡ false
    → x.ext_tsn ≡ t
    → OnlyNewest t (collect x.ext_tsn xs).1
    → OnlyNewest t (collect last (x ∷ xs)).1
unfolding collect
collect_kept t last x xs new at h = rw new (
    OnlyNewest-append t (if last == 0 then [] else missing (x.ext_tsn - (last + 1)) (last + 1)) _
      (gap-OnlyNewest (last == 0) t _ _) (inr at, h))

-- Behind the first all that follows is old, or has its number.
collect_behind :
    (t b last : ℕ) (xs : List RtpExtInfo)
    → last ≡ t
    → b ≤ t
    → Falls b xs
    → OnlyNewest t (collect last xs).1
unfolding collect
collect_behind t b last [] e h f = tt
collect_behind t b last (x ∷ xs) e h (hx, f) = elim (Bool-cases (ltb x.ext_tsn last)) [
  | inl old ↦ rw old (collect_behind t x.ext_tsn last xs e (omega arith) f)
  | inr new ↦
      let at : x.ext_tsn ≡ t = ground arith in
      collect_kept t last x xs new at (collect_behind t x.ext_tsn x.ext_tsn xs at (omega arith) f)
]

-- Of all packets that arrived since the report before, a report tells of those with the largest number
-- alone that they came: every other entry has the time 0, which stands for a packet that did not come.
pub collect-OnlyNewest :
    (last : ℕ) (xs : List RtpExtInfo) → OnlyNewest (top xs) (collect last (sort xs)).1
unfolding collect
collect-OnlyNewest last xs = split (sort xs) (first_of-sort xs) (sort-Falls xs)
  where
    split :
        (ys : List RtpExtInfo)
        → first_of ys ≡ top xs
        → Falls (top xs) ys
        → OnlyNewest (top xs) (collect last ys).1
    split [] e f = tt
    split (y ∷ ys) e f = elim (Bool-cases (ltb y.ext_tsn last)) [
      | inl old ↦
          subst (OnlyNewest (top xs)) (sym (collect_old (top xs) last (y ∷ ys) (ground arith) f)) tt
      | inr new ↦
          collect_kept (top xs) last y ys new e
            (collect_behind (top xs) y.ext_tsn y.ext_tsn ys e (omega arith) f.1)
    ]

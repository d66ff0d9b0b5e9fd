-- ===== src/Flash/Erase.antt =====
-- targets/stm32l/hw/FLASH.cpp: pages are erased, and checked.
use lib_stm.Base.{
  ℕ, zero, suc, ◌+◌, ◌-◌, ◌/◌, ◌≤◌, ◌<◌, ◌==◌, ==_iff, Bool, true, false, ◌≡◌, ◌≢◌, ◌⊎◌, ◌↔◌, refl,
  ◌∙◌, Bool-cases, inl, inr, if◌then◌else◌, u32, arith,
}
use lib_stm.Flash.{Flash, unlock, lock}

-- `PageSize`, in bytes and in words.
abbrev pub page_size : ℕ
page_size = 2048

abbrev pub page_words : ℕ
page_words = 512

-- `wipe n mem` is the memory after the controller has erased page `n`, and `all_ones mem n` is
-- `IsAllOnes` of that page.
module _ (wipe : ℕ → (ℕ → ℕ) → ℕ → ℕ) (all_ones : (ℕ → ℕ) → ℕ → Bool) where
  -- What the critical section of the loop starts, and the wait behind it. The control register has
  -- its effect only while it is not locked.
  unfoldable pub erase_page : ℕ → Flash → Flash
  erase_page n f =
      let f' = unlock f in
      lock (
        if f'.locked
        then f'
        else record f' { pg = false; per = true; page = n; mem = wipe n f'.mem })

  -- The loop of `Erase`, with the number of pages left: the last result is that of the function.
  unfoldable pub erase_loop : ℕ → ℕ → Flash → Flash × Bool
  erase_loop n zero f = (f, true)
  erase_loop n (suc pages) f =
      let f' = erase_page n f in
      let rest = erase_loop (n + 1) pages f' in if all_ones f'.mem n then rest else (f', false)

  -- `Erase` of `length` bytes at `ptr`.
  unfoldable pub erase : ℕ → ℕ → Flash → Flash × Bool
  erase ptr length f =
      let n = ptr / page_size in
      let ne = u32 (ptr + length + 4294967295) / page_size in erase_loop n (ne + 1 - n) f

  unfoldable pub try_erase_page : ℕ → Flash → Flash × Bool
  try_erase_page ptr f = erase ptr page_size f

  -- `ErasePage`, whose first wait ends when no other operation is running.
  unfoldable pub erase_page_async : ℕ → Flash → Flash × Bool
  erase_page_async ptr f =
      let n = ptr / page_size in let f' = erase_page n f in (f', all_ones f'.mem n)

-- What the parameters do: an erasure touches its page only, and the test reads its page only.
pub record IsPaged (wipe : ℕ → (ℕ → ℕ) → ℕ → ℕ) (all_ones : (ℕ → ℕ) → ℕ → Bool) : Type 0 where
  pub elsewhere : (n : ℕ) (mem : ℕ → ℕ) (a : ℕ) → a / page_words ≢ n → wipe n mem a ≡ mem a
  pub tested :
      (mem : ℕ → ℕ) (n : ℕ)
      → (all_ones mem n ≡ true) ↔ ((a : ℕ) → a / page_words ≡ n → mem a ≡ 4294967295)

-- What the erasure of pages from `n` on does.
pub record IsErased (wipe : ℕ → (ℕ → ℕ) → ℕ → ℕ) (n pages : ℕ) (f : Flash) (r : Flash × Bool)
    : Type 0 where
  pub erased :
      r.1 ≡ true
      → (a : ℕ) → n ≤ a / page_words
      → a / page_words < n + pages
      → r.0.mem a ≡ 4294967295
  pub outside : (a : ℕ) → a / page_words < n ⊎ n + pages ≤ a / page_words → r.0.mem a ≡ f.mem a
  pub complete :
      ((m : ℕ) (mem : ℕ → ℕ) (a : ℕ) → a / page_words ≡ m → wipe m mem a ≡ 4294967295) → r.1 ≡ true
  pub locked : f.locked ≡ true → r.0.locked ≡ true

module _ (wipe : ℕ → (ℕ → ℕ) → ℕ → ℕ) (all_ones : (ℕ → ℕ) → ℕ → Bool)
    (g : IsPaged wipe all_ones) where
  erase_page_lem :
      (n : ℕ) (f : Flash)
      → erase_page wipe all_ones n f
        ≡ record f { locked = true; pg = false; per = true; page = n; mem = wipe n f.mem }
  unfolding erase_page unlock lock
  erase_page_lem n f = refl

  next-Erased :
      (n pages : ℕ) (f : Flash) (r : Flash × Bool)
      → all_ones (wipe n f.mem) n ≡ true
      → IsErased wipe (n + 1) pages (erase_page wipe all_ones n f) r
      → IsErased wipe n (suc pages) f r
  next-Erased n pages f r ones o = record {
    erased = erased;
    outside = outside;
    complete = o.complete;
    locked = λ h. o.locked (rw (erase_page_lem n f) refl);
  }
    where
      same :
          (a : ℕ)
          → a / page_words < n + 1 ⊎ n + 1 + pages ≤ a / page_words
          → r.0.mem a ≡ wipe n f.mem a
      same a h = o.outside a h ∙ rw (erase_page_lem n f) refl

      erased :
          r.1 ≡ true
          → (a : ℕ) → n ≤ a / page_words
          → a / page_words < n + suc pages
          → r.0.mem a ≡ 4294967295
      erased z a h h' = elim (Bool-cases (a / page_words == n)) [
        | inl e ↦
            same a (inl (ground arith))
            ∙ (g.tested (wipe n f.mem) n).0 ones a ((==_iff (a / page_words) n).0 e)
        | inr e ↦ o.erased z a (ground arith) (omega arith)
      ]

      outside : (a : ℕ) → a / page_words < n ⊎ n + suc pages ≤ a / page_words → r.0.mem a ≡ f.mem a
      outside a (inl h) = same a (inl (omega arith)) ∙ g.elsewhere n f.mem a (omega arith)
      outside a (inr h) = same a (inr (omega arith)) ∙ g.elsewhere n f.mem a (omega arith)

  erase_loop-Erased :
      (n pages : ℕ) (f : Flash) → IsErased wipe n pages f (erase_loop wipe all_ones n pages f)
  unfolding erase_loop erase_page unlock lock
  erase_loop-Erased n zero f = record {
    erased = λ z a h h'. absurd (omega arith);
    outside = λ a h. refl;
    complete = λ w. refl;
    locked = λ h. h;
  }
  erase_loop-Erased n (suc pages) f = elim (Bool-cases (all_ones (wipe n f.mem) n)) [
    | inl ones ↦ rw ones (
        next-Erased n pages f _ ones
          (erase_loop-Erased (n + 1) pages (erase_page wipe all_ones n f)))
    | inr bad ↦ rw bad (record {
      erased = λ z. cc z;
      outside = outside;
      complete = λ w. absurd (cc (bad, (g.tested (wipe n f.mem) n).1 (λ a h. w n f.mem a h)));
      locked = λ h. refl;
    })
  ]
    where
      outside :
          (a : ℕ) → a / page_words < n ⊎ n + suc pages ≤ a / page_words → wipe n f.mem a ≡ f.mem a
      outside a (inl h) = g.elsewhere n f.mem a (omega arith)
      outside a (inr h) = g.elsewhere n f.mem a (omega arith)

-- The pages that an area of bytes touches are erased: if `Erase` returns true, all their words hold
-- ones; it returns true if every erasure succeeds; no other page changes; and the register is locked
-- again. The area is not empty and lies below the end of the address space.
pub erase-Erased :
    (wipe : ℕ → (ℕ → ℕ) → ℕ → ℕ) (all_ones : (ℕ → ℕ) → ℕ → Bool)
    → IsPaged wipe all_ones
    → (ptr length : ℕ) (f : Flash) → 0 < length
    → ptr + length ≤ 4294967296
    → IsErased wipe
        (ptr / page_size)
        ((ptr + length - 1) / page_size + 1 - ptr / page_size)
        f
        (erase wipe all_ones ptr length f)
unfolding erase
erase-Erased wipe all_ones g ptr length f some_bytes fits =
    let last : u32 (ptr + length + 4294967295) ≡ ptr + length - 1 = omega arith in
    rw last (erase_loop-Erased wipe all_ones g (ptr / page_size) _ f)

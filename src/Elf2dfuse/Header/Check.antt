-- ===== src/Elf2dfuse/Header/Check.antt =====
-- elf2dfuse/elf2dfuse.c: which files `checkEh` accepts.
use lib_stm.Base.{◌≡◌, refl, ◌↔◌, true, false, List, [], ◌∷◌, take, arith}
use lib_stm.Elf2dfuse.Header.{Ehdr, same_bytes, ref_ident, check_eh}

-- A 32-bit little-endian ELF executable for ARM.
pub record IsArmExecutable (eh : Ehdr) : Type 0 where
  pub ident : take 7 eh.e_ident ≡ ref_ident
  pub executable : eh.e_type ≡ 2
  pub arm : eh.e_machine ≡ 40
  pub current : eh.e_version ≡ 1

same_bytes-eq : (xs ys : List _) → same_bytes xs ys ≡ true → xs ≡ ys
unfolding same_bytes
same_bytes-eq [] [] h = refl
same_bytes-eq [] (y ∷ ys) h = cc
same_bytes-eq (x ∷ xs) [] h = cc
same_bytes-eq (x ∷ xs) (y ∷ ys) h = ground (arith, same_bytes-eq xs ys)

-- `checkEh` returns no error just for the header of a 32-bit little-endian ARM executable.
pub check_eh_iff : (eh : Ehdr) → (check_eh eh ≡ false) ↔ IsArmExecutable eh
unfolding check_eh
check_eh_iff eh = (accepted, λ a. rw (a.ident, a.executable, a.arm, a.current))
  where
    accepted : check_eh eh ≡ false → IsArmExecutable eh
    accepted h = ground (arith, same_bytes-eq (take 7 eh.e_ident) ref_ident)

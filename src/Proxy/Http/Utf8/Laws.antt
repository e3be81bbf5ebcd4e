-- ===== src/Proxy/Http/Utf8/Laws.antt =====
-- `from_utf8_lossy` on well-formed bytes.
use aiautotest.Common.{
  ℕ, zero, suc, leb, ◌≡◌, refl, sym, ◌∙◌, Bool, true, false, ◌&&◌, Option, none, some, [], ◌∷◌,
  ◌++◌, append_assoc, arith, Text,
}
use aiautotest.Proxy.Http.Utf8.{
  next_in, read_in, is_utf8, from_utf8_lossy, expect, next_byte, Expected, lead, next_byte, run,
  settle, begin, lossy, is_utf8, from_utf8_lossy, expect,
}

abbrev at : ℕ → ℕ → ℕ → Expected
at more lowest highest = record { more = more; lowest = lowest; highest = highest }

abbrev Keeps : Text → Type 0
Keeps s =
    (more lowest highest : ℕ) (waiting : Text)
    → (more ≡ 0 → waiting ≡ [])
    → run (some (at more lowest highest)) s ≡ true
    → lossy (at more lowest highest) waiting s ≡ waiting ++ s

run-at_zero :
    (lowest highest : ℕ) (s : Text) → run (some (at 0 lowest highest)) s ≡ run (some (at 0 0 0)) s
unfolding run next_byte
run-at_zero lowest highest [] = refl
run-at_zero lowest highest (b ∷ s) = refl

settle-Keeps :
    (s bytes : Text) (more lowest highest : ℕ)
    → Keeps s
    → run (some (at more lowest highest)) s ≡ true
    → (settle [] bytes more lowest highest).out
        ++ lossy
            (settle [] bytes more lowest highest).state
            (settle [] bytes more lowest highest).waiting
            s
      ≡ bytes ++ s
unfolding settle
settle-Keeps s bytes zero lowest highest keeps ok =
    rw (keeps 0 0 0 [] (λ e. refl) (sym (run-at_zero lowest highest s) ∙ ok))
settle-Keeps s bytes (suc more) lowest highest keeps ok =
    keeps (suc more) lowest highest bytes (λ e. absurd (omega arith)) ok

begin-Keeps :
    (s : Text) (b : ℕ) (o : Option Expected)
    → Keeps s
    → run o s ≡ true
    → (begin [] b o).out ++ lossy (begin [] b o).state (begin [] b o).waiting s ≡ b ∷ s
unfolding begin run
begin-Keeps s b none keeps ok = cc ok
begin-Keeps s b (some e) keeps ok = settle-Keeps s (b ∷ []) e.more e.lowest e.highest keeps ok

read_in-Keeps :
    (s : Text) (b : ℕ) (inside : Bool) (more : ℕ) (waiting : Text)
    → Keeps s
    → run (next_in inside more) s ≡ true
    → (read_in inside more waiting b).out
        ++ lossy (read_in inside more waiting b).state (read_in inside more waiting b).waiting s
      ≡ waiting ++ b ∷ s
unfolding read_in next_in expect run
read_in-Keeps s b true more waiting keeps ok =
    settle-Keeps s (waiting ++ b ∷ []) more 128 191 keeps ok ∙ append_assoc waiting (b ∷ []) s
read_in-Keeps s b false more waiting keeps ok = cc ok

lossy-Keeps : (s : Text) → Keeps s
unfolding lossy run
lossy-Keeps [] more lowest highest [] empty ok = refl
lossy-Keeps [] more lowest highest (b ∷ waiting) empty ok = absurd (ground arith)
lossy-Keeps (b ∷ s) zero lowest highest waiting empty ok =
    rw (empty refl) (begin-Keeps s b (lead b) (lossy-Keeps s) ok)
lossy-Keeps (b ∷ s) (suc more) lowest highest waiting empty ok =
    read_in-Keeps s b (leb lowest b && leb b highest) more waiting (lossy-Keeps s) ok

-- Bytes that are UTF-8 are read as they are.
pub from_utf8_lossy_lem : (s : Text) → is_utf8 s ≡ true → from_utf8_lossy s ≡ s
unfolding from_utf8_lossy is_utf8 expect
from_utf8_lossy_lem s h = lossy-Keeps s 0 0 0 [] (λ e. refl) h

-- ===== src/Printrandom/Output.antt =====
-- What reproduce/src/printrandom.c prints: its printf formats and the order of what it writes.
use Prim.Native.String.{String}
use reproduce.Prelude.{
  ℕ, zero, suc, ◌+◌, ◌-◌, ◌/◌, ◌%◌, ◌^◌, Bool, List, [], ◌∷◌, ◌++◌, ltb, if◌then◌else◌,
}
use reproduce.Prelude.Bytes.{codes}
use reproduce.Prelude.Decimal.{decimal, signed_decimal}

-- What goes to the standard output by printf and to the standard error by fprintf, and perror, which
-- adds what the C library says about errno to the text.
pub data Written : Type 0 where
  stdout : List ℕ → Written
  stderr : List ℕ → Written
  perror : List ℕ → Written

-- A run of `main` in one process: what it wrote, and what it returned or exited with.
pub record Ran : Type 0 where
  pub written : List Written
  pub status : ℕ

abbrev pub says : List Written → Ran → Ran
says ws r = record { written = ws ++ r.written; status = r.status }

abbrev pub ends : (status : ℕ) → Ran
ends status = record { written = []; status = status }

-- printf with a format that ends in a newline
abbrev pub line : List ℕ → Written
line text = stdout (text ++ 10 ∷ [])

-- "%ld" for a 64-bit pattern
abbrev pub signed_long : ℕ → List ℕ
signed_long n = if ltb n (2 ^ 63) then decimal n else b'-' ∷ decimal (2 ^ 64 - n)

abbrev hex_digit : ℕ → ℕ
hex_digit d = if ltb d 10 then b'0' + d else b'a' + (d - 10)

-- "%02x" for a byte
abbrev pub hex : ℕ → List ℕ
hex b = hex_digit (b / 16) ∷ hex_digit (b % 16) ∷ []

-- The loops over a buffer: n bytes from i on, each with what follows it.
abbrev pub hex_bytes : (byte : ℕ → ℕ) (sep : List ℕ) (i n : ℕ) → List ℕ
hex_bytes byte sep i zero = []
hex_bytes byte sep i (suc n) = hex (byte i) ++ (sep ++ hex_bytes byte sep (i + 1) n)

-- `printf("\033[1;31m%d...\033[0m\n", pid)`
abbrev pub complaint : (pid : ℕ) → String → Written
complaint pid text =
    line (27 ∷ (codes "[1;31m" ++ (signed_decimal pid ++ (codes text ++ 27 ∷ codes "[0m"))))

-- the loop over `argv`, from the argument number i on
abbrev pub argv_lines : (i : ℕ) (argv : List (List ℕ)) → List Written
argv_lines i [] = []
argv_lines i (arg ∷ argv) =
    line (codes "argv[" ++ (signed_decimal i ++ (codes "]: " ++ arg))) ∷ argv_lines (i + 1) argv

-- The variable `ret`, and what has been complained about since it was last looked at.
pub record Checks : Type 0 where
  pub ret : ℕ
  pub said : List Written

abbrev pub unchecked : (ret : ℕ) → Checks
unchecked ret = record { ret = ret; said = [] }

-- `if (!ok) { printf(...); ret = 1; }`
abbrev pub check : (ok : Bool) → (complaints : List Written) → Checks → Checks
check ok complaints c = if ok then c else record { ret = 1; said = c.said ++ complaints }

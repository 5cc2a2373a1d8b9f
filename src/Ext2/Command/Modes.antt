-- ===== src/Ext2/Command/Modes.antt =====
-- project3/src/cli.c: the mode that `chmod` makes.
use Prim.Native.Nat.{bit_and, bit_or}
use xjtu_os_project.Prelude.{
  ℕ, ◌+◌, ◌*◌, ◌/◌, ◌%◌, ◌<◌, ◌≡◌, refl, ap, sym, ◌^◌, ◌∙◌, Bool, true, arith, ◌==◌, ==_iff,
}
use xjtu_os_project.Ext2.Dir.{is_dir}
use xjtu_os_project.Ext2.Bitmap.Bits.{holds_up_to, holds_up_to-at}
use xjtu_os_project.Ext2.Command.Chmod.{new_mode}

abbrev type_cell : ℕ → ℕ → Bool
type_cell k r = bit_and (k * 4096 + r) 0o170000 == k * 4096

abbrev perm_cell : ℕ → Bool
perm_cell m = bit_and m 0o777 == m % 512

abbrev join_cell : ℕ → ℕ → Bool
join_cell k r = bit_or (k * 4096) r == k * 4096 + r

type_table : holds_up_to (λ k. holds_up_to (λ r. type_cell k r) 4096) 16 ≡ true
unfolding holds_up_to
type_table = refl

perm_table : holds_up_to perm_cell 4096 ≡ true
unfolding holds_up_to
perm_table = refl

join_table : holds_up_to (λ k. holds_up_to (λ r. join_cell k r) 512) 16 ≡ true
unfolding holds_up_to
join_table = refl

type_of : (k r : ℕ) → k < 16 → r < 4096 → bit_and (k * 4096 + r) 0o170000 ≡ k * 4096
type_of k r hk hr =
    (==_iff _ _).0 (holds_up_to-at _ 4096 r hr (holds_up_to-at _ 16 k hk type_table))

perm_of : (m : ℕ) → m < 4096 → bit_and m 0o777 ≡ m % 512
perm_of m h = (==_iff _ _).0 (holds_up_to-at _ 4096 m h perm_table)

join : (k r : ℕ) → k < 16 → r < 512 → bit_or (k * 4096) r ≡ k * 4096 + r
join k r hk hr = (==_iff _ _).0 (holds_up_to-at _ 512 r hr (holds_up_to-at _ 16 k hk join_table))

type_bits : (mode : ℕ) → mode < 2 ^ 16 → bit_and mode 0o170000 ≡ mode / 4096 * 4096
type_bits mode h =
    ap (λ x. bit_and x 0o170000) {x = mode} {y = mode / 4096 * 4096 + mode % 4096} (omega arith)
    ∙ type_of (mode / 4096) (mode % 4096) (omega arith) (omega arith)

-- The upper four bits of a mode stay, the lower nine are those of an octal number below 010000, and the
-- three between are cleared.
pub new_mode_lem :
    (mode m : ℕ) → mode < 2 ^ 16 → m < 4096 → new_mode mode m ≡ mode / 4096 * 4096 + m % 512
unfolding new_mode
new_mode_lem mode m h k =
    ap (λ x. bit_or x (bit_and m 0o777)) (type_bits mode h)
    ∙ ap (bit_or (mode / 4096 * 4096)) (perm_of m k)
    ∙ join (mode / 4096) (m % 512) (omega arith) (omega arith)

-- A directory stays one.
pub is_dir-new_mode :
    (mode m : ℕ) → mode < 2 ^ 16 → m < 4096 → is_dir (new_mode mode m) ≡ is_dir mode
unfolding is_dir
is_dir-new_mode mode m h k =
    ap (λ x. x == 0o040000)
      (ap (λ x. bit_and x 0o170000) (new_mode_lem mode m h k)
        ∙ type_of (mode / 4096) (m % 512) (omega arith) (omega arith)
        ∙ sym (type_bits mode h))

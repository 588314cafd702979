-- ===== src/Fat16/Handle/Seeking.antt =====
-- fat16_seek and fat16_stat of fs/fat/fat16.c on one open file.
use custom_os.Base.{
  ℕ, ◌+◌, ◌%◌, ◌^◌, ◌<◌, ◌≤◌, ◌≡◌, ◌⊎◌, inl, inr, refl, sym, ◌∙◌, ap, leb, arith, Result, ok, err,
  einvarg, eio, Bool-cases,
}
use custom_os.Fat16.Item.{item_at}
use custom_os.Fat16.Directory.{State}
use custom_os.Fat16.Search.{Content, file, subdirectory}
use custom_os.Fat16.Handle.{
  FatFileDescriptor, FileStat, FileSeekMode, seek_set, seek_cur, fat16_stat, fat16_seek,
}

-- The size that fat16_stat tells.
abbrev pub Stats : State → FatFileDescriptor → ℕ → Type 0
Stats s desc n = (st : FileStat) × (fat16_stat s desc ≡ ok st) × (st.filesize ≡ n)

-- A seek that goes to `p`, or one that is refused.
abbrev pub SeeksTo : State → FatFileDescriptor → ℕ → FileSeekMode → ℕ → Type 0
SeeksTo s desc offset mode p = fat16_seek s desc offset mode ≡ (ok tt, record desc { pos = p })

abbrev pub Refuses : State → FatFileDescriptor → ℕ → FileSeekMode → Type 0
Refuses s desc offset mode = fat16_seek s desc offset mode ≡ (err eio, desc)

told : Result FileStat → ℕ
told (ok st) = st.filesize
told (err e) = 0

file_told :
    (s : State) (desc : FatFileDescriptor) (n : ℕ)
    → Stats s desc n
    → (a : ℕ) × (desc.item.content ≡ file a) × ((item_at s.kernel.memory a).filesize ≡ n)
unfolding fat16_stat told
file_told s desc n (st, e, size) = go (desc.item.content) refl
  where
    shown :
        (a : ℕ)
        → desc.item.content ≡ file a
        → told (fat16_stat s desc) ≡ (item_at s.kernel.memory a).filesize
    shown a is = rw is refl

    go :
        (c : Content)
        → desc.item.content ≡ c
        → (a : ℕ) × (desc.item.content ≡ file a) × ((item_at s.kernel.memory a).filesize ≡ n)
    go (file a) is = (a, is, sym (shown a is) ∙ (ap told e ∙ size))
    go (subdirectory d) is =
        let refused : fat16_stat s desc ≡ err einvarg = rw is refl in cc (refused, e)

-- For a file of which fat16_stat tells `n` bytes, fat16_seek to an offset below `n` moves the position
-- to the offset for SEEK_SET and on by it, modulo 2 ^ 32, for SEEK_CUR, and every seek with an offset
-- from `n` on is refused with -EIO and leaves the descriptor as it was, whatever the mode.
pub fat16_seek-fat16_stat :
    (s : State) (desc : FatFileDescriptor) (n offset : ℕ) (mode : FileSeekMode)
    → Stats s desc n
    → ((offset < n)
        × SeeksTo s desc offset seek_set offset
        × SeeksTo s desc offset seek_cur ((desc.pos + offset) % 2 ^ 32))
      ⊎ ((n ≤ offset) × Refuses s desc offset mode)
unfolding fat16_seek fat16_stat
fat16_seek-fat16_stat s desc n offset mode stats =
    let (a, is, size) = file_told s desc n stats in
    elim (Bool-cases (leb n offset)) [
      | inl out ↦ inr (ground arith, rw (is, size, out) refl)
      | inr inside ↦ inl (ground arith, rw (is, size, inside) refl, rw (is, size, inside) refl)
    ]

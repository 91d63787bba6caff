-- ===== src/Packet/File.antt =====
-- `readDataBlock`: a file is the concatenation of its blocks.
use tftp.Base.{
  ℕ, zero, suc, ◌+◌, ◌*◌, ◌-◌, ◌≤◌, Bytes, ◌≡◌, ap, ◌∙◌, sym, some, [], ◌++◌, length, drop, min,
  length-take, length-drop, take-append-drop, drop-drop, drop_all, append-nil, append_assoc, arith,
}
use tftp.Packet.{read_data_block}

-- The `count` blocks behind the first `n` of a file, one after another.
abbrev pub blocks : Bytes → ℕ → ℕ → Bytes
blocks contents n zero = []
blocks contents n (suc count) =
    read_data_block (some contents) (suc n) ++ blocks contents (suc n) count

-- Each block has 512 bytes, but for the last of the file, which has what is left, and those behind
-- it, which are empty.
pub length-read_data_block :
    (contents : Bytes) (n : ℕ)
    → length (read_data_block (some contents) (suc n)) ≡ min 512 (length contents - n * 512)
unfolding read_data_block
length-read_data_block contents n =
    length-take 512 (drop (n * 512) contents) ∙ ap (min 512) (length-drop (n * 512) contents)

-- One block, and the file behind it.
read_data_block_split :
    (contents : Bytes) (n : ℕ)
    → read_data_block (some contents) (suc n) ++ drop (suc n * 512) contents
      ≡ drop (n * 512) contents
unfolding read_data_block
read_data_block_split contents n =
    rw (sym (drop-drop (n * 512) 512 (suc n * 512) contents (omega arith)))
      (take-append-drop 512 (drop (n * 512) contents))

blocks-drop :
    (contents : Bytes) (n count k : ℕ)
    → n + count ≡ k
    → blocks contents n count ++ drop (k * 512) contents ≡ drop (n * 512) contents
blocks-drop contents n zero k h = ap (λ (i : ℕ). drop (i * 512) contents) (omega arith)
blocks-drop contents n (suc count) k h =
    append_assoc (read_data_block (some contents) (suc n)) (blocks contents (suc n) count)
      (drop (k * 512) contents)
    ∙ ap (◌++◌ (read_data_block (some contents) (suc n)))
        (blocks-drop contents (suc n) count k (omega arith))
    ∙ read_data_block_split contents n

-- The blocks that readDataBlock reads from block 1 on, as many as cover a file, put together are
-- the file.
pub blocks-all :
    (contents : Bytes) (count : ℕ)
    → length contents ≤ count * 512
    → blocks contents 0 count ≡ contents
blocks-all contents count h =
    sym (append-nil (blocks contents 0 count))
    ∙ rw (drop_all (count * 512) contents h) at (blocks-drop contents 0 count count (omega arith))

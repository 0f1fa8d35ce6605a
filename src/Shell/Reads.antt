-- ===== src/Shell/Reads.antt =====
-- The loop of `cat` over the reads of a file, in kernel/kernel.c.
use lons_os.Base.{
  ℕ, zero, suc, ◌+◌, ◌-◌, ◌*◌, ◌^◌, ◌≤◌, ◌<◌, ◌≡◌, ◌≢◌, refl, sym, ap, ◌∙◌, subst, arith, true,
  false, List, [], ◌∷◌, ◌++◌, if◌then◌else◌, length, take, drop, length-drop, drop-drop, ltb,
  eq_false, lt→ltb,
}
use lons_os.Base.Text.{codes}
use lons_os.Machine.Signed.{ℤ, pos}
use lons_os.Heap.{ok}
use lons_os.Vfs.{Vfs, bad_fd, vfs_max_fds}
use lons_os.Vfs.Calls.{advance, vfs_read}
use lons_os.Shell.{Shell, Kernel, say}
use lons_os.Shell.Cat.{c_text, cat_text, cat_reads}
use lons_os.Shell.Output.{indented, say-append, say-nil, cat_lines-indented}

-- No byte is 0.
pub data NoZero : List ℕ → Type 0 where
  nil : NoZero []
  cons : {c : ℕ} {cs : List ℕ} → c ≢ 0 → NoZero cs → NoZero (c ∷ cs)

c_text-NoZero : (text : List ℕ) → NoZero text → c_text text ≡ text
unfolding c_text
c_text-NoZero [] NoZero.nil = refl
c_text-NoZero (c ∷ cs) (NoZero.cons h t) =
    rw (eq_false c 0 h) (ap (λ l. c ∷ l) (c_text-NoZero cs t))

take-NoZero : (n : ℕ) (text : List ℕ) → NoZero text → NoZero (take n text)
take-NoZero zero text t = NoZero.nil
take-NoZero (suc n) [] t = NoZero.nil
take-NoZero (suc n) (c ∷ cs) (NoZero.cons h t) = NoZero.cons h (take-NoZero n cs t)

drop-NoZero : (n : ℕ) (text : List ℕ) → NoZero text → NoZero (drop n text)
drop-NoZero zero text t = t
drop-NoZero (suc n) [] t = t
drop-NoZero (suc n) (c ∷ cs) (NoZero.cons h t) = drop-NoZero n cs t

take-all : (text : List ℕ) (n : ℕ) → length text ≤ n → take n text ≡ text
take-all [] zero h = refl
take-all [] (suc n) h = refl
take-all (c ∷ cs) zero h = absurd (omega arith)
take-all (c ∷ cs) (suc n) h = ap (λ l. c ∷ l) (take-all cs n (omega arith))

length-take-le : (n : ℕ) (text : List ℕ) → length (take n text) ≤ length text
length-take-le zero text = omega arith
length-take-le (suc n) [] = omega arith
length-take-le (suc n) (c ∷ cs) = omega (arith, length-take-le n cs)

-- What lies behind the bytes taken.
drop-length-take : (n : ℕ) (text : List ℕ) → drop (length (take n text)) text ≡ drop n text
drop-length-take zero text = refl
drop-length-take (suc n) [] = refl
drop-length-take (suc n) (c ∷ cs) = drop-length-take n cs

-- What `cat` prints of a text in at most `n` reads: two spaces before what each read brings, which is
-- 128 bytes at most, and behind each newline.
abbrev pub chunked : ℕ → List ℕ → List ℕ
chunked zero text = []
chunked (suc n) [] = []
chunked (suc n) (c ∷ cs) =
    codes "  " ++ (indented (take 128 (c ∷ cs)) ++ chunked n (drop 128 (c ∷ cs)))

module _ {D : Type 0} (k : Kernel D) where
  -- Reads of `node` give the bytes of `text` that they ask for, as far as there are any, and
  -- change nothing, as long as the nodes and the disk are those of `s`.
  abbrev pub Reads : ℕ → List ℕ → Vfs D → Type 0
  Reads node text s =
      (off len : ℕ) (v : Vfs D)
      → v.nodes ≡ s.nodes
      → v.disk ≡ s.disk
      → (k.ops (v.nodes node).ops).read node off len v
        ≡ ((pos (length (take len (drop off text))), take len (drop off text)), v)

  -- The descriptor `fd` is open at `off` on a node that reads so.
  pub record OpenAt (fd off : ℕ) (text : List ℕ) (s : Vfs D) : Type 0 where
    pub in_table : fd < vfs_max_fds
    pub used : (s.fd_table fd).used ≢ 0
    pub offset : (s.fd_table fd).offset ≡ off
    pub reads : Reads (s.fd_table fd).node text s

  not_bad :
      (fd off : ℕ) (text : List ℕ) (s : Vfs D) → OpenAt fd off text s → bad_fd (pos fd) s ≡ false
  unfolding bad_fd
  not_bad fd off text s o = ground (arith, o.in_table, o.used)

  -- The bytes that a read of `len` at `off` gives.
  abbrev piece : ℕ → List ℕ → List ℕ
  piece off text = take 128 (drop off text)

  abbrev Answer : Type 0
  Answer = (ℤ × List ℕ) × Vfs D

  vfs_read-piece :
      (fd off : ℕ) (text : List ℕ) (s : Vfs D)
      → OpenAt fd off text s
      → vfs_read k.ops k.path_junk (pos fd) 128 s ≡ (
          if ltb 0 (length (piece off text))
          then (
            (pos (length (piece off text)), piece off text),
            advance fd (length (piece off text)) s,
          )
          else ((pos (length (piece off text)), piece off text), s))
  unfolding vfs_read
  vfs_read-piece fd off text s o =
      let node = (s.fd_table fd).node in
      let e =
        subst
          (λ at.
            (k.ops (s.nodes node).ops).read node at 128 s
            ≡ ((pos (length (piece off text)), piece off text), s))
          (sym o.offset) (o.reads off 128 s refl refl) in
      rw (not_bad fd off text s o, e) refl

  -- The next descriptor's state.
  advance-OpenAt :
      (fd off n : ℕ) (text : List ℕ) (s : Vfs D)
      → OpenAt fd off text s
      → off + n < 2 ^ 64
      → OpenAt fd (off + n) text (advance fd n s)
  advance-OpenAt fd off n text s o small = record {
    in_table = o.in_table;
    used = ground (arith, o.used);
    offset = ground (arith, o.offset);
    reads = subst (λ node. Reads node text s) (sym same_node) o.reads;
  }
    where
      same_node : ((advance fd n s).fd_table fd).node ≡ (s.fd_table fd).node
      same_node = ground arith

  -- The loop ends with the chunks of `rest` printed, in the same nodes and disk.
  abbrev pub Prints : ℕ → ℕ → List ℕ → Shell D → Type 0
  Prints n fd rest s =
      (w : Vfs D) × (cat_reads k (suc n) (pos fd) s
        ≡ ok (record (say (chunked n rest) s) { vfs = w }))
      × (w.nodes ≡ s.vfs.nodes)
      × (w.disk ≡ s.vfs.disk)

  cat_text-indented :
      (text : List ℕ) (s : Shell D)
      → NoZero text
      → cat_text (c_text (take (length text) text)) s ≡ say (codes "  " ++ indented text) s
  cat_text-indented text s nz =
      ap (λ l. cat_text (c_text l) s) (take-all text (length text) (omega arith))
      ∙ ap (λ l. cat_text l s) (c_text-NoZero text nz)
      ∙ cat_lines-indented (length text) text (say (codes "  ") s) (omega arith)
      ∙ sym (say-append (codes "  ") (indented text) s)

  chunked-nil : (n : ℕ) → chunked n [] ≡ []
  chunked-nil zero = refl
  chunked-nil (suc n) = refl

  -- One round at the end of the file, and one before it.
  cat_reads-end :
      (n fd off : ℕ) (text : List ℕ) (s : Shell D)
      → OpenAt fd off text s.vfs
      → drop off text ≡ []
      → cat_reads k (suc n) (pos fd) s ≡ ok s
  unfolding cat_reads
  cat_reads-end n fd off text s o e = rw (vfs_read-piece fd off text s.vfs o, e) refl

  cat_reads-more :
      (n fd off c : ℕ) (cs text : List ℕ) (s : Shell D)
      → OpenAt fd off text s.vfs
      → NoZero text
      → drop off text ≡ c ∷ cs
      → cat_reads k (suc n) (pos fd) s
        ≡ cat_reads k n (pos fd) (
            say
              (codes "  " ++ indented (take 128 (c ∷ cs)))
              (record s { vfs = advance fd (length (take 128 (c ∷ cs))) s.vfs }))
  unfolding cat_reads
  cat_reads-more n fd off c cs text s o nz e =
      let full : ltb 0 (length (take 128 (c ∷ cs))) ≡ true = lt→ltb 0 _ (omega arith) in
      let left : NoZero (c ∷ cs) = subst NoZero e (drop-NoZero off text nz) in
      rw (vfs_read-piece fd off text s.vfs o, e, full, full)
        (ap (cat_reads k n (pos fd)) (
          cat_text-indented (take 128 (c ∷ cs))
            (record s { vfs = advance fd (length (take 128 (c ∷ cs))) s.vfs })
            (take-NoZero 128 (c ∷ cs) left)))

  -- From a descriptor at `off` of a text without zeros of less than 2^64 bytes, of which `rest` is left,
  -- `n + 1` reads for at most 128 `n` bytes are enough: `cat_reads` ends, has printed the chunks
  -- of the rest and has changed neither the nodes nor the disk.
  pub cat_reads-Prints :
      (n fd off : ℕ) (text rest : List ℕ) (s : Shell D)
      → OpenAt fd off text s.vfs
      → NoZero text
      → length text < 2 ^ 64
      → drop off text ≡ rest
      → length rest ≤ 128 * n
      → Prints n fd rest s
  cat_reads-Prints n fd off text [] s o nz small e enough = (
    s.vfs,
    cat_reads-end n fd off text s o e ∙ ap ok (sym (ap (λ l. say l s) (chunked-nil n) ∙ say-nil s)),
    refl,
    refl,
  )
  cat_reads-Prints zero fd off text (c ∷ cs) s o nz small e enough = absurd (omega arith)
  cat_reads-Prints (suc n) fd off text (c ∷ cs) s o nz small e enough =
      let part = take 128 (c ∷ cs) in
      let step = length part in
      let t : Shell D = record s { vfs = advance fd step s.vfs } in
      let rest_lem : drop (off + step) text ≡ drop 128 (c ∷ cs) =
        drop-drop off step text ∙ ap (drop step) e ∙ drop-length-take 128 (c ∷ cs) in
      let left : length (c ∷ cs) ≡ length text - off = ap length (sym e) ∙ length-drop off text in
      let room = length-take-le 128 (c ∷ cs) in
      let (w, run, nodes, disk) =
        cat_reads-Prints n fd (off + step) text (drop 128 (c ∷ cs))
          (say (codes "  " ++ indented part) t)
          (advance-OpenAt fd off step text s.vfs o (omega (arith, left, room))) nz small rest_lem
          (omega (arith, length-drop 128 (c ∷ cs))) in
      (
        w,
        cat_reads-more (suc n) fd off c cs text s o nz e
            ∙ run
            ∙ ap (λ (g : Shell D). ok (record g { vfs = w })) (joined part (drop 128 (c ∷ cs)) t),
        nodes,
        disk,
      )
    where
      joined :
          (part others : List ℕ) (t : Shell D)
          → say (chunked n others) (say (codes "  " ++ indented part) t)
            ≡ say (codes "  " ++ (indented part ++ chunked n others)) t
      joined part others t = sym (say-append (codes "  " ++ indented part) (chunked n others) t)

-- ===== src/Jobs/Finish/Links.antt =====
-- jobs.c: new_finished_job over the `next` pointers of the finished jobs, against the same over lists.
use task_spooler.Base.{
  ℕ, zero, suc, ◌+◌, ◌≤◌, ◌≡◌, ◌≢◌, refl, sym, ◌∙◌, subst, Bool, true, false, ◌&&◌, List, [], ◌∷◌,
  ◌++◌, ◌<◌, All, length, ◌==◌, if◌then◌else◌, arith, Bool-cases, inl, inr,
}
use task_spooler.Base.Int.{ℤ, pos, leb_ℤ, ltb_ℤ}
use task_spooler.Base.Run.{Run, ok, exits, fault, ◌>>=◌}
use task_spooler.Jobs.Finish.{drop_first, new_finished_job}
use task_spooler.Jobs.Order.Links.{Links, write}
use task_spooler.Jobs.Order.Links.Seg.{Seg, NotIn, Distinct, write_self, write_other}

-- The nodes: their `next` pointers, and which of them were freed; 0 is the null pointer.
pub record Nodes : Type 0 where
  pub next : Links
  pub freed : ℕ → Bool

-- `p->next`, of a null pointer or a freed node too.
unfoldable pub read_next : Nodes → ℕ → Run ℕ
read_next n p = if p == 0 then fault else (if n.freed p then fault else ok (n.next p))

-- `p->next = v`.
unfoldable pub write_next : Nodes → ℕ → ℕ → Run Nodes
unfolding write
write_next n p v =
    if p == 0
    then fault
    else (if n.freed p then fault else ok (record n { next = write n.next p v }))

-- destroy_job: `p` is freed.
unfoldable pub destroy_job : ℕ → Nodes → Nodes
destroy_job p n = record n { freed = λ x. if x == p then true else n.freed x }

-- The walk to the last node, and the count of the nodes. The fuel counts nodes.
unfoldable pub walk_to_end : ℕ → Nodes → ℕ → ℕ → Run (ℕ × ℕ)
unfolding read_next
walk_to_end zero n p count = fault
walk_to_end (suc fuel) n p count = read_next n p >>= λ q.
    let rest = walk_to_end fuel n q (count + 1) in if q == 0 then ok (p, count) else rest

-- "If too many jobs, wipe out the first".
unfoldable pub wipe_out : ℤ → ℕ → ℕ → Nodes → Run (ℕ × Nodes)
unfolding read_next destroy_job
wipe_out max count first n =
    if leb_ℤ max (pos count)
    then (read_next n first >>= λ second. ok (second, destroy_job first n))
    else ok (first, n)

-- `p->next = j; p->next->next = 0`.
unfoldable pub link_behind : ℕ → ℕ → Nodes → Run Nodes
unfolding read_next write_next
link_behind p j n = do n1 ← write_next n p j; q ← read_next n1 p; write_next n1 q 0

-- new_finished_job: the first node and the nodes afterwards.
unfoldable pub new_finished_links : ℕ → ℤ → ℕ → ℕ → Nodes → Run (ℕ × Nodes)
unfolding walk_to_end wipe_out link_behind write_next
new_finished_links fuel max j first n =
    if first == 0 && ltb_ℤ (pos 0) max then (write_next n j 0 >>= λ n'. ok (j, n')) else (do
      (p, count) ← walk_to_end fuel n first 1
      (first', n1) ← wipe_out max count first n
      n2 ← link_behind p j n1
      ok (first', n2))

-- No node of the list was freed.
abbrev pub AllLive : Nodes → List ℕ → Type 0
AllLive n xs = All (λ x. n.freed x ≡ false) xs

-- A list of finished jobs: the pointers lead through its nodes, all different and none freed.
pub record IsList (n : Nodes) (first : ℕ) (xs : List ℕ) : Type 0 where
  pub chain : Seg n.next first xs 0
  pub distinct : Distinct xs
  pub live : AllLive n xs

-- The pointers do what the function does over lists, its undefined behaviour included.
abbrev pub Implements : Run (List ℕ) → Run (ℕ × Nodes) → Type 0
Implements (ok kept) r =
    (first : ℕ) × (n : Nodes) × (r ≡ ok (first, n)) × Seg n.next first kept 0 × AllLive n kept
Implements exits r = ⊥
Implements fault r = r ≡ fault

last_of : ℕ → List ℕ → ℕ
last_of x [] = x
last_of x (y ∷ ys) = last_of y ys

last_other : (a x : ℕ) (xs : List ℕ) → NotIn a (x ∷ xs) → a ≢ last_of x xs
unfolding last_of
last_other a x [] h = h.0
last_other a x (y ∷ ys) h = last_other a y ys h.1

last_live : (P : ℕ → Type 0) (x : ℕ) (xs : List ℕ) → All P (x ∷ xs) → P (last_of x xs)
unfolding last_of
last_live P x [] h = h.0
last_live P x (y ∷ ys) h = last_live P y ys h.1

last_node : (next : Links) (p x : ℕ) (xs : List ℕ) → Seg next p (x ∷ xs) 0 → last_of x xs ≢ 0
unfolding last_of
last_node next p x [] h = h.1
last_node next p x (y ∷ ys) h = last_node next (next x) y ys h.2

read_next_live : (n : Nodes) (p : ℕ) → p ≢ 0 → n.freed p ≡ false → read_next n p ≡ ok (n.next p)
unfolding read_next
read_next_live n p a b = ground arith

write_next_live :
    (n : Nodes) (p v : ℕ)
    → p ≢ 0
    → n.freed p ≡ false
    → write_next n p v ≡ ok (record n { next = write n.next p v })
unfolding write_next
write_next_live n p v a b = ground arith

walk_to_end-last :
    (fuel : ℕ) (n : Nodes) (p x : ℕ) (xs : List ℕ) (count : ℕ)
    → length (x ∷ xs) ≤ fuel
    → Seg n.next p (x ∷ xs) 0
    → AllLive n (x ∷ xs)
    → walk_to_end fuel n p count ≡ ok (last_of x xs, count + length xs)
unfolding walk_to_end last_of
walk_to_end-last zero n p x xs count f h l = absurd (omega (arith, f))
walk_to_end-last (suc fuel) n p x [] count f h l =
    rw (h.0, read_next_live n x h.1 l.0, h.2) (ground arith)
walk_to_end-last (suc fuel) n p x (y ∷ ys) count f h l =
    let ih = walk_to_end-last fuel n (n.next x) y ys (count + 1) (omega (arith, f)) h.2 l.1 in
    let more : (n.next x == 0) ≡ false = ground (arith, h.2.0, h.2.1) in
    rw (h.0, read_next_live n x h.1 l.0, more, ih) (ground arith)

-- A node behind the last one.
Seg-snoc :
    (next : Links) (j p x : ℕ) (xs : List ℕ)
    → j ≢ 0
    → NotIn j (x ∷ xs)
    → Distinct (x ∷ xs)
    → Seg next p (x ∷ xs) 0
    → Seg (write (write next (last_of x xs) j) j 0) p (x ∷ xs ++ j ∷ []) 0
unfolding last_of
Seg-snoc next j p x [] nz out d h = (
  h.0,
  h.1,
  (
    write_other (write next x j) j 0 x (λ e. out.0 (sym e)) ∙ write_self next x j,
    nz,
    write_self (write next x j) j 0,
  ),
)
Seg-snoc next j p x (y ∷ ys) nz out d h =
    let l = last_of y ys in
    let w = write (write next l j) j 0 in
    let same : w x ≡ next x =
      write_other (write next l j) j 0 x (λ e. out.0 (sym e))
      ∙ write_other next l j x (last_other x y ys d.0) in
    (
      h.0,
      h.1,
      subst (λ a. Seg w a (y ∷ ys ++ j ∷ []) 0) (sym same)
          (Seg-snoc next j (next x) y ys nz out.1 d.1 h.2),
    )

All-snoc : (P : ℕ → Type 0) (xs : List ℕ) (j : ℕ) → All P xs → P j → All P (xs ++ j ∷ [])
All-snoc P [] j h k = (k, tt)
All-snoc P (x ∷ xs) j h k = (h.0, All-snoc P xs j h.1 k)

-- The new node of a list.
pub record IsNew (n : Nodes) (j : ℕ) (xs : List ℕ) : Type 0 where
  pub not_null : j ≢ 0
  pub other : NotIn j xs
  pub live : n.freed j ≡ false

link_behind-last :
    (n : Nodes) (j p x : ℕ) (xs : List ℕ)
    → IsList n p (x ∷ xs)
    → IsNew n j (x ∷ xs)
    → (n' : Nodes) × (link_behind (last_of x xs) j n ≡ ok n')
      × Seg n'.next p (x ∷ xs ++ j ∷ []) 0
      × AllLive n' (x ∷ xs ++ j ∷ [])
unfolding link_behind
link_behind-last n j p x xs h k =
    let l = last_of x xs in
    let nz = last_node n.next p x xs h.chain in
    let live = last_live (λ y. n.freed y ≡ false) x xs h.live in
    let n1 : Nodes = record n { next = write n.next l j } in
    let n2 : Nodes = record n1 { next = write n1.next j 0 } in
    (
      n2,
      rw
          (
            write_next_live n l j nz live,
            read_next_live n1 l nz live,
            write_self n.next l j,
            write_next_live n1 j 0 k.not_null k.live,
          )
          refl,
      Seg-snoc n.next j p x xs k.not_null k.other h.distinct h.chain,
      All-snoc (λ y. n.freed y ≡ false) (x ∷ xs) j h.live k.live,
    )

-- The nodes behind a freed one are as they were.
AllLive-destroy :
    (n : Nodes) (x : ℕ) (xs : List ℕ) → NotIn x xs → AllLive n xs → AllLive (destroy_job x n) xs
unfolding destroy_job
AllLive-destroy n x [] out h = tt
AllLive-destroy n x (y ∷ ys) out h = (ground arith, AllLive-destroy n x ys out.1 h.1)

destroy_job-freed : (n : Nodes) (x : ℕ) → (destroy_job x n).freed x ≡ true
unfolding destroy_job
destroy_job-freed n x = ground arith

link_behind_freed : (p j : ℕ) (n : Nodes) → p ≢ 0 → n.freed p ≡ true → link_behind p j n ≡ fault
unfolding link_behind write_next
link_behind_freed p j n a b = ground arith

rest_IsList :
    (n : Nodes) (x : ℕ) (xs : List ℕ) → IsList n x (x ∷ xs) → IsList (destroy_job x n) (n.next x) xs
unfolding destroy_job
rest_IsList n x xs h = record {
  chain = h.chain.2;
  distinct = h.distinct.1;
  live = AllLive-destroy n x xs h.distinct.0 h.live.1;
}

rest_IsNew : (n : Nodes) (j x : ℕ) (xs : List ℕ) → IsNew n j (x ∷ xs) → IsNew (destroy_job x n) j xs
unfolding destroy_job
rest_IsNew n j x xs k = record {
  not_null = k.not_null;
  other = k.other.1;
  live = ground (arith, k.other.0, k.live);
}

-- The list is full: its first node is freed.
full_links :
    (n : Nodes) (j x : ℕ) (xs : List ℕ)
    → IsList n x (x ∷ xs)
    → IsNew n j (x ∷ xs)
    → Implements
        (drop_first xs j)
        (link_behind (last_of x xs) j (destroy_job x n) >>= λ n2. ok (n.next x, n2))
unfolding last_of drop_first
full_links n j x [] h k =
    rw (link_behind_freed x j (destroy_job x n) h.chain.1 (destroy_job-freed n x)) refl
full_links n j x (y ∷ ys) h k =
    let (n2, e, c, l) =
      link_behind-last (destroy_job x n) j (n.next x) y ys (rest_IsList n x (y ∷ ys) h)
        (rest_IsNew n j x (y ∷ ys) k) in
    (n.next x, n2, rw e refl, c, l)

-- There is room for one more.
room_links :
    (n : Nodes) (j x : ℕ) (xs : List ℕ)
    → IsList n x (x ∷ xs)
    → IsNew n j (x ∷ xs)
    → Implements (ok (x ∷ xs ++ j ∷ [])) (link_behind (last_of x xs) j n >>= λ n2. ok (x, n2))
room_links n j x xs h k =
    let (n2, e, c, l) = link_behind-last n j x x xs h k in (x, n2, rw e refl, c, l)

new_finished_links_none :
    (fuel : ℕ) (max : ℤ) (j : ℕ) (n : Nodes)
    → IsNew n j []
    → Implements (new_finished_job max j []) (new_finished_links (suc fuel) max j 0 n)
unfolding new_finished_job new_finished_links walk_to_end read_next
new_finished_links_none fuel max j n k = elim (Bool-cases (ltb_ℤ (pos 0) max)) [
  | inl some_kept ↦
      rw (some_kept, write_next_live n j 0 k.not_null k.live)
        (
          j,
          record n { next = write n.next j 0 },
          refl,
          (refl, k.not_null, write_self n.next j 0),
          (k.live, tt),
        )
  | inr none_kept ↦ rw none_kept refl
]

new_finished_links_some :
    (fuel : ℕ) (max : ℤ) (j x : ℕ) (xs : List ℕ) (n : Nodes)
    → length (x ∷ xs) ≤ fuel
    → IsList n x (x ∷ xs)
    → IsNew n j (x ∷ xs)
    → Implements (new_finished_job max j (x ∷ xs)) (new_finished_links fuel max j x n)
unfolding new_finished_job new_finished_links wipe_out
new_finished_links_some fuel max j x xs n f h k =
    let here : (x == 0) ≡ false = ground (arith, h.chain.1) in
    let walk = walk_to_end-last fuel n x x xs 1 f h.chain h.live in
    let count : 1 + length xs ≡ length (x ∷ xs) = omega arith in
    elim (Bool-cases (leb_ℤ max (pos (length (x ∷ xs))))) [
      | inl full ↦ rw (here, walk, count, full, h.live.0) (full_links n j x xs h k)
      | inr room ↦ rw (here, walk, count, room) (room_links n j x xs h k)
    ]

-- With fuel for more nodes than the list has: if the pointers lead from the first finished job
-- through different nodes that were not freed, and the new node is another one, not null and not
-- freed, then new_finished_job over pointers does what it does over lists. Where that gives a list,
-- the pointers lead from the new first job through its nodes, none of which was freed; and where
-- that is undefined, a null pointer or a freed node is used.
pub new_finished_links-Implements :
    (fuel : ℕ) (max : ℤ) (j first : ℕ) (old : List ℕ) (n : Nodes)
    → length old < fuel
    → IsList n first old
    → IsNew n j old
    → Implements (new_finished_job max j old) (new_finished_links fuel max j first n)
new_finished_links-Implements zero max j first old n f h k = absurd (omega (arith, f))
new_finished_links-Implements (suc fuel) max j first [] n f h k =
    rw h.chain (new_finished_links_none fuel max j n k)
new_finished_links-Implements (suc fuel) max j first (x ∷ xs) n f h k = rw h.chain.0 (
    new_finished_links_some (suc fuel) max j x xs n (omega (arith, f))
      (record { chain = (refl, h.chain.1, h.chain.2); distinct = h.distinct; live = h.live }) k)

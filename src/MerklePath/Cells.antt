-- ===== src/MerklePath/Cells.antt =====
-- Where crates/shielder-contract/src/merkle_path.rs puts each element of a path.
use zk_os_monorepo.Base.{
  ℕ, zero, suc, ◌+◌, ◌-◌, ◌*◌, ◌/◌, ◌%◌, ◌<◌, ◌≤◌, ◌≡◌, refl, ap, sym, ◌∙◌, ◌&&◌, Option, none,
  some, List, [], ◌∷◌, length, take, replicate, get_last?, length-take, ◌==◌, if◌then◌else◌, arith,
  Bool-cases, inl, inr,
}
use zk_os_monorepo.MerklePath.{
  arity, tree_height, modify, set_cell, write_path, zero_path, reorganize_merkle_path,
}

abbrev pub get_elem? {ℓ} : {A : Type ℓ} → List A → ℕ → Option A
get_elem? [] n = none
get_elem? (x ∷ xs) zero = some x
get_elem? (x ∷ xs) (suc n) = get_elem? xs n

abbrev pub cell : List (List ℕ) → ℕ → ℕ → Option ℕ
cell path row column = elim (get_elem? path row) [ none ↦ none | some r ↦ get_elem? r column ]

-- As many rows and columns.
abbrev AllLong : ℕ → List (List ℕ) → Type 0
AllLong n [] = Unit {0}
AllLong n (row ∷ rows) = (length row ≡ n) × AllLong n rows

AllLong-replicate : (n : ℕ) (row : List ℕ) (k : ℕ) → length row ≡ n → AllLong n (replicate k row)
AllLong-replicate n row zero h = tt
AllLong-replicate n row (suc k) h = (h, AllLong-replicate n row k h)

length-modify {ℓ} :
    {A : Type ℓ} (n : ℕ) (f : A → A) (xs : List A) → length (modify n f xs) ≡ length xs
unfolding modify
length-modify n f [] = refl
length-modify zero f (x ∷ xs) = refl
length-modify (suc n) f (x ∷ xs) = ap suc (length-modify n f xs)

AllLong-modify :
    (n row column element : ℕ) (rows : List (List ℕ))
    → AllLong n rows
    → AllLong n (modify row (modify column (λ _. element)) rows)
unfolding modify
AllLong-modify n row column element [] h = tt
AllLong-modify n zero column element (r ∷ rows) (h, hs) =
    (length-modify column (λ _. element) r ∙ h, hs)
AllLong-modify n (suc row) column element (r ∷ rows) (h, hs) =
    (h, AllLong-modify n row column element rows hs)

get_elem?-modify :
    (xs : List ℕ) (n m element : ℕ)
    → n < length xs
    → get_elem? (modify n (λ _. element) xs) m ≡ (if n == m then some element else get_elem? xs m)
unfolding modify
get_elem?-modify [] n m element h = absurd (omega arith)
get_elem?-modify (x ∷ xs) zero zero element h = refl
get_elem?-modify (x ∷ xs) zero (suc m) element h = ground arith
get_elem?-modify (x ∷ xs) (suc n) zero element h = ground arith
get_elem?-modify (x ∷ xs) (suc n) (suc m) element h =
    ground (arith, get_elem?-modify xs n m element (omega arith))

cell-set_cell :
    (path : List (List ℕ)) (width row column element r c : ℕ)
    → AllLong width path
    → row < length path
    → column < width
    → cell (set_cell row column element path) r c
      ≡ (if row == r && column == c then some element else cell path r c)
unfolding set_cell modify
cell-set_cell [] width row column element r c long h k = absurd (omega arith)
cell-set_cell (x ∷ path) width zero column element zero c (e, long) h k =
    ground (arith, get_elem?-modify x column c element (omega arith))
cell-set_cell (x ∷ path) width zero column element (suc r) c long h k = ground arith
cell-set_cell (x ∷ path) width (suc row) column element zero c long h k = ground arith
cell-set_cell (x ∷ path) width (suc row) column element (suc r) c (e, long) h k =
    ground (arith, cell-set_cell path width row column element r c long (omega arith) k)

-- The grid keeps its shape, and the loop leaves the cells before its index alone.
write_path_keeps :
    (i j : ℕ) (elements : List ℕ) (path : List (List ℕ))
    → AllLong arity path
    → length path ≡ tree_height
    → i + length elements ≤ arity * tree_height
    → j < i
    → cell (write_path i elements path) (j / arity) (j % arity) ≡ cell path (j / arity) (j % arity)
unfolding write_path set_cell
write_path_keeps i j [] path long high fits before = refl
write_path_keeps i j (x ∷ elements) path long high fits before =
    write_path_keeps (i + 1) j elements (set_cell (i / arity) (i % arity) x path)
      (AllLong-modify arity (i / arity) (i % arity) x path long)
      (length-modify (i / arity) (modify (i % arity) (λ _. x)) path ∙ high) (omega arith)
      (omega arith)
    ∙ ground (
      arith,
      cell-set_cell path arity (i / arity) (i % arity) x (j / arity) (j % arity) long (omega arith)
          (omega arith),
    )

write_path_lem :
    (i j : ℕ) (elements : List ℕ) (path : List (List ℕ))
    → AllLong arity path
    → length path ≡ tree_height
    → i + length elements ≤ arity * tree_height
    → i ≤ j
    → j < i + length elements
    → cell (write_path i elements path) (j / arity) (j % arity) ≡ get_elem? elements (j - i)
unfolding write_path set_cell
write_path_lem i j [] path long high fits from below = absurd (omega arith)
write_path_lem i j (x ∷ elements) path long high fits from below =
    let next = set_cell (i / arity) (i % arity) x path in
    let long' = AllLong-modify arity (i / arity) (i % arity) x path long in
    let high' = length-modify (i / arity) (modify (i % arity) (λ _. x)) path ∙ high in
    elim (Bool-cases (i == j)) [
      | inl now ↦
          let same : i ≡ j = ground arith in
          write_path_keeps (i + 1) j elements next long' high' (omega arith) (omega arith)
          ∙ ground (
            arith,
            same,
            cell-set_cell path arity (i / arity) (i % arity) x (j / arity) (j % arity) long
                (omega arith) (omega arith),
          )
      | inr later ↦
          let different : i < j = ground arith in
          let index : j - i ≡ suc (j - (i + 1)) = omega arith in
          write_path_lem (i + 1) j elements next long' high' (omega arith) (omega arith)
            (omega arith)
          ∙ sym (ap (get_elem? (x ∷ elements)) index)
    ]

get_elem?-take : (n i : ℕ) (xs : List ℕ) → i < n → get_elem? (take n xs) i ≡ get_elem? xs i
get_elem?-take zero i xs h = absurd (omega arith)
get_elem?-take (suc n) i [] h = refl
get_elem?-take (suc n) zero (x ∷ xs) h = refl
get_elem?-take (suc n) (suc i) (x ∷ xs) h = get_elem?-take n i xs (omega arith)

get_last?-get_elem? : (xs : List ℕ) (n : ℕ) → length xs ≡ suc n → get_last? xs ≡ get_elem? xs n
get_last?-get_elem? [] n h = absurd (omega arith)
get_last?-get_elem? (x ∷ []) zero h = refl
get_last?-get_elem? (x ∷ []) (suc n) h = absurd (omega arith)
get_last?-get_elem? (x ∷ y ∷ xs) zero h = absurd (omega arith)
get_last?-get_elem? (x ∷ y ∷ xs) (suc n) h = get_last?-get_elem? (y ∷ xs) n (omega arith)

get_elem?-some : (xs : List ℕ) (n : ℕ) → n < length xs → (x : ℕ) × (get_elem? xs n ≡ some x)
get_elem?-some [] n h = absurd (omega arith)
get_elem?-some (x ∷ xs) zero h = (x, refl)
get_elem?-some (x ∷ xs) (suc n) h = get_elem?-some xs n (omega arith)

-- A flat path of 7 * 13 + 1 elements is reorganised: the root is its last element, and the cell of
-- row j / 7 and column j % 7 holds the element j, for each of the others.
pub reorganize_merkle_path_lem :
    (merkle_path : List ℕ) (j : ℕ)
    → length merkle_path ≡ arity * tree_height + 1
    → j < arity * tree_height
    → (root : ℕ) × (path : List (List ℕ)) × (reorganize_merkle_path merkle_path ≡ some (root, path))
      × (get_elem? merkle_path (arity * tree_height) ≡ some root)
      × (cell path (j / arity) (j % arity) ≡ get_elem? merkle_path j)
unfolding reorganize_merkle_path
reorganize_merkle_path_lem merkle_path j long index =
    let (root, last) = get_elem?-some merkle_path 91 (omega arith) in
    let found = get_last?-get_elem? merkle_path 91 (omega arith) in
    let path = write_path 0 (take 91 merkle_path) zero_path in
    let short = length-take 91 merkle_path (omega arith) in
    (
      root,
      path,
      ground (arith, found, last),
      last,
      write_path_lem 0 j (take 91 merkle_path) zero_path
            (AllLong-replicate arity (replicate arity 0) tree_height refl) refl (omega arith)
            (omega arith) (omega arith)
          ∙ ap (get_elem? (take 91 merkle_path)) {x = j - 0} {y = j} (omega arith)
          ∙ get_elem?-take 91 j merkle_path index,
    )

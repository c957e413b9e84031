-- ===== src/Catalog/Files/Listing.antt =====
-- src/catalog/catalog.hpp: `Catalog::init` over the files of a directory.
use mathlib.Core.Path.{subst}
use tadis.Prelude.{
  ℕ, ◌≡◌, ◌⊎◌, refl, sym, ap, ◌∙◌, Bool, true, false, Option, none, some, List, [], ◌∷◌, arith,
  Bool-cases, Option-cases, inl, inr,
}
use tadis.Common.TextMap.{eq_text, lookup, emplace}
use tadis.Common.TextMap.Laws.{eq_text_sound, eq_text_refl, lookup-emplace}
use tadis.Storage.BufferPool.{BufferPool}
use tadis.Json.Value.{object}
use tadis.Json.Numbers.{NumberOps}
use tadis.Json.Writer.{print_value}
use tadis.Catalog.Meta.RoundTrip.{KeepsSizes, IsStorable, schema_object}
use tadis.Catalog.Tables.{Catalog, Table, File, meta_file, db_name, json_name, open_heap}
use tadis.Catalog.Files.{meta_name, meta_pattern, up_to_dot, is_json, init_file, init}
use tadis.Catalog.Files.Reopen.{reopened, eq_text-meta_name, init_file-meta_file}

module _ {N : Type 0} (ops : NumberOps N) (matches : List ℕ → List ℕ → Bool) (last : List ℕ → ℕ)
    (dir : List ℕ) (files : List (List ℕ × File)) (ts : List (List ℕ × Table)) where
  -- The meta file of the table is there, under a name that is taken as the table's, and its pool can
  -- be opened.
  pub record IsKept (name : List ℕ) (t : Table) : Type 0 where
    pub takes : matches (meta_pattern dir) (meta_name dir name) ≡ true
    pub no_dot : up_to_dot (json_name name) ≡ some name
    pub storable : IsStorable t.schema
    pub text :
        lookup (meta_name dir name) files
        ≡ some (meta_file (print_value ops (object (schema_object ops t.schema))))
    pub opens : (heap : BufferPool) × (open_heap (db_name name) files ≡ some heap)

  -- The files of a directory in some order, each once. One that the pattern takes is the meta file of
  -- a table.
  abbrev pub IsListing : List (List ℕ × File) → Type 0
  IsListing [] = Unit
  IsListing ((file, f) ∷ l) =
      (lookup file files ≡ some f)
      × (lookup file l ≡ none)
      × ((matches (meta_pattern dir) file ≡ false)
          ⊎ ((name : List ℕ) × (t : Table) × (file ≡ meta_name dir name)
              × (lookup name ts ≡ some t)))
      × IsListing l

  -- A value that `init` replaces for each table whose meta file is listed.
  abbrev pick :
      {A : Type 0} → List (List ℕ × File) → List ℕ → Option A → (Table → Option A) → Option A
  pick l name old new = elim (lookup (meta_name dir name) l) [
    | none ↦ old
    | some f ↦ elim (lookup name ts) [ none ↦ old | some t ↦ new t ]
  ]

  abbrev Unseen : List (List ℕ × File) → Catalog → Type 0
  Unseen l c =
      (name : List ℕ) (f : File)
      → lookup (meta_name dir name) l ≡ some f
      → (lookup name c.tables ≡ none) × (lookup name c.heaps ≡ none)

  abbrev Read : List (List ℕ × File) → Catalog → Catalog → Type 0
  Read l c c' =
      (name : List ℕ)
      → (lookup name c'.tables ≡ pick l name (lookup name c.tables) (λ t. some (reopened name t)))
        × (lookup name c'.heaps
            ≡ pick l name (lookup name c.heaps) (λ t. open_heap (db_name name) files))

  module _ (kept : (name : List ℕ) (t : Table) → lookup name ts ≡ some t → IsKept name t)
      (k : KeepsSizes ops) where
    pick-skip :
        {A : Type 0} (file : List ℕ) (f : File) (l : List (List ℕ × File)) (name : List ℕ)
        (old : Option A) (new : Table → Option A)
        → matches (meta_pattern dir) file ≡ false
        → pick ((file, f) ∷ l) name old new ≡ pick l name old new
    unfolding lookup
    pick-skip file f l name old new skips = elim (Option-cases (lookup name ts)) [
      | inl gone ↦ elim (Bool-cases (eq_text file (meta_name dir name))) [
        | inl same ↦ elim (Option-cases (lookup (meta_name dir name) l)) [
          | inl none_left ↦ ground arith
          | inr (g, listed) ↦ ground arith
        ]
        | inr other ↦ ground arith
      ]
      | inr (t, there) ↦ elim (Bool-cases (eq_text file (meta_name dir name))) [
        | inl same ↦
            let is_meta = eq_text_sound file (meta_name dir name) same in
            let taken = ap (matches (meta_pattern dir)) is_meta ∙ (kept name t there).takes in
            absurd (ground (arith, taken))
        | inr other ↦ ground arith
      ]
    ]

    init_file-skip :
        (file : List ℕ) (f : File) (c : Catalog)
        → c.base_dir ≡ dir
        → matches (meta_pattern dir) file ≡ false
        → init_file ops matches last file f c ≡ some c
    unfolding init_file is_json
    init_file-skip file f c at_dir skips =
        let other : matches (meta_pattern c.base_dir) file ≡ false =
          ap (λ d. matches (meta_pattern d) file) at_dir ∙ skips in
        ground arith

    -- What the meta file of a table adds.
    pick-table :
        {A : Type 0} (first : List ℕ) (t : Table) (f : File) (l : List (List ℕ × File))
        (name : List ℕ) (m : List (List ℕ × A)) (v : A) (new : List ℕ → Table → Option A)
        → lookup first ts ≡ some t
        → lookup (meta_name dir first) l ≡ none
        → lookup first m ≡ none
        → some v ≡ new first t
        → pick l name (lookup name (emplace first v m)) (new name)
          ≡ pick ((meta_name dir first, f) ∷ l) name (lookup name m) (new name)
    unfolding lookup
    pick-table first t f l name m v new there once unseen is =
        let added = lookup-emplace name first v m unseen in
        let same = eq_text-meta_name ops dir first name in
        elim (Bool-cases (eq_text first name)) [
          | inl e ↦
              let one = eq_text_sound first name e in
              let there' : lookup name ts ≡ some t = rw one at there in
              let once' : lookup (meta_name dir name) l ≡ none = rw one at once in
              let is' : some v ≡ new name t = rw one at is in ground arith
          | inr e ↦ ground arith
        ]

    -- The step of `init` at the meta file of a table.
    init_listing-table :
        (first : List ℕ) (t : Table) (f : File) (l : List (List ℕ × File)) (c c1 c' : Catalog)
        (heap : BufferPool)
        → lookup first ts ≡ some t
        → lookup (meta_name dir first) l ≡ none
        → Unseen ((meta_name dir first, f) ∷ l) c
        → open_heap (db_name first) files ≡ some heap
        → c1.heaps ≡ emplace first heap c.heaps
        → c1.tables ≡ emplace first (reopened first t) c.tables
        → Read l c1 c'
        → Read ((meta_name dir first, f) ∷ l) c c'
    unfolding lookup
    init_listing-table first t f l c c1 c' heap at once unseen opens heaps tables read name =
        let (no_table, no_heap) =
          unseen first f (ground (arith, eq_text_refl (meta_name dir first))) in
        (
          (read name).0
              ∙ ap (λ m. pick l name (lookup name m) (λ u. some (reopened name u))) tables
              ∙ pick-table first t f l name c.tables (reopened first t) (λ n u. some (reopened n u))
                  at once no_table refl,
          (read name).1
              ∙ ap (λ m. pick l name (lookup name m) (λ u. open_heap (db_name name) files)) heaps
              ∙ pick-table first t f l name c.heaps heap (λ n u. open_heap (db_name n) files) at
                  once no_heap (sym opens),
        )

    Unseen-emplace :
        (first : List ℕ) (f : File) (l : List (List ℕ × File)) (c c1 : Catalog) (t : Table)
        (heap : BufferPool)
        → lookup (meta_name dir first) l ≡ none
        → Unseen ((meta_name dir first, f) ∷ l) c
        → c1.heaps ≡ emplace first heap c.heaps
        → c1.tables ≡ emplace first t c.tables
        → Unseen l c1
    unfolding lookup
    Unseen-emplace first f l c c1 t heap once unseen heaps tables name g listed =
        let (no_table, no_heap) =
          unseen first f (ground (arith, eq_text_refl (meta_name dir first))) in
        let same = eq_text-meta_name ops dir first name in
        elim (Bool-cases (eq_text first name)) [
          | inl e ↦
              let one = eq_text_sound first name e in
              let once' : lookup (meta_name dir name) l ≡ none = rw one at once in
              absurd (ground (arith, once', listed))
          | inr e ↦
              let (t_none, h_none) = unseen name g (ground (arith, same, e, listed)) in
              (
                ap (lookup name) tables
                    ∙ ground (arith, lookup-emplace name first t c.tables no_table, e, t_none),
                ap (lookup name) heaps
                    ∙ ground (arith, lookup-emplace name first heap c.heaps no_heap, e, h_none),
              )
        ]

    pub init_listing :
        (l : List (List ℕ × File)) (c : Catalog)
        → c.base_dir ≡ dir
        → c.files ≡ files
        → IsListing l
        → Unseen l c
        → (c' : Catalog) × (init ops matches last l c ≡ some c') × Read l c c'
    unfolding init lookup
    init_listing [] c at_dir at_files ls unseen = (c, refl, λ name. (refl, refl))
    init_listing ((file, f) ∷ l) c at_dir at_files (there, once, inl skips, ls) unseen =
        let skipped = init_file-skip file f c at_dir skips in
        let (c', ran, read) = init_listing l c at_dir at_files ls (λ name g listed.
          elim (Bool-cases (eq_text file (meta_name dir name))) [
            | inl same ↦ unseen name f (ground arith)
            | inr other ↦ unseen name g (ground arith)
          ]) in
        (
          c',
          ground (arith, skipped, ran),
          λ name. (
            (read name).0
                ∙ sym (
                    pick-skip file f l name (lookup name c.tables) (λ t. some (reopened name t))
                      skips),
            (read name).1
                ∙ sym (
                    pick-skip file f l name (lookup name c.heaps)
                      (λ t. open_heap (db_name name) files) skips),
          ),
        )
    init_listing ((file, f) ∷ l) c at_dir at_files (there, once, inr (first, t, is, at), ls)
          unseen =
        let table = kept first t at in
        let (heap, opens) = table.opens in
        let c1 = record c {
          heaps = emplace first heap c.heaps;
          tables = emplace first (reopened first t) c.tables;
        } in
        let once' : lookup (meta_name dir first) l ≡ none = rw is at once in
        let there' : lookup (meta_name dir first) files ≡ some f = rw is at there in
        let unseen' : Unseen ((meta_name dir first, f) ∷ l) c =
          subst (λ m. Unseen ((m, f) ∷ l) c) is unseen in
        let text = print_value ops (object (schema_object ops t.schema)) in
        let read_file : f ≡ meta_file text = ground (arith, there', table.text) in
        let step : init_file ops matches last file f c ≡ some c1 =
          rw (is, read_file)
            (init_file-meta_file ops matches last dir files first t c heap k at_dir at_files
              table.takes table.no_dot table.storable opens) in
        let (c', ran, read) =
          init_listing l c1 at_dir at_files ls
            (Unseen-emplace first f l c c1 (reopened first t) heap once' unseen' refl refl) in
        (
          c',
          ground (arith, step, ran),
          subst (λ m. Read ((m, f) ∷ l) c c') (sym is)
              (init_listing-table first t f l c c1 c' heap at once' unseen' opens refl refl read),
        )

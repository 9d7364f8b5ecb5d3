-- ===== src/Audit/Jsonl/Findable.antt =====
-- Where an entry that reached a file is found, and what the file operations leave of it.
use sovereignstack.Prelude.{
  ◌≡◌, ◌≢◌, refl, ap, sym, ◌∙◌, Bool, true, false, not, List, [], ◌∷◌, ◌++◌, Option, none, some,
  arith, if◌then◌else◌, Bool-cases, inl, inr, ◌⊎◌,
}
use mathlib.Core.Path.{subst}
use mathlib.Core.List.{append_assoc}
use sovereignstack.Text.{Text, codes, text_eq, text_eq_iff}
use sovereignstack.Text.Trim.{has_suffix}
use sovereignstack.Dict.{
  Dict, get, put, remove, get-put_ne, get-put_self, get-remove_self, get-remove_ne,
}
use sovereignstack.Audit.{AuditLog}
use sovereignstack.Audit.Jsonl.{
  File, plain, packed, partial, GzipEnv, path_of, gz, lines_of, gzip_opened, gzip_file,
}
use sovereignstack.Audit.Jsonl.Paths.{path_of-injective, gz-injective, gz-ne-path_of}

-- a member of a list: an entry among the lines of a file, a path among those to compress
abbrev pub Has {ℓ} : {A : Type ℓ} → A → List A → Type ℓ
Has {A = A} x xs = (before : List A) × (after : List A) × (xs ≡ before ++ x ∷ after)

-- where an entry of a day is found: in the day's file while it is there, and in the compressed one
-- from then on
abbrev pub FoundIn : AuditLog → Option File → Option File → Type 0
FoundIn entry (some (plain lines)) zipped = Has entry lines
FoundIn entry (some f) zipped = ⊥
FoundIn entry none (some (packed lines)) = Has entry lines
FoundIn entry none f = ⊥

abbrev pub Found : Text → Dict File → Text × AuditLog → Type 0
Found dir_path files (day, entry) =
    FoundIn entry (get files (path_of dir_path day)) (get files (gz (path_of dir_path day)))

Has-append {ℓ} : {A : Type ℓ} (x last : A) (xs : List A) → Has x xs → Has x (xs ++ last ∷ [])
Has-append x last xs (before, after, e) = (
  before,
  after ++ last ∷ [],
  ap (λ t. t ++ last ∷ []) e ∙ append_assoc before (x ∷ after) (last ∷ []),
)

pub Has-last {ℓ} : {A : Type ℓ} (x : A) (xs : List A) → Has x (xs ++ x ∷ [])
Has-last x xs = (xs, [], refl)

add_line-FoundIn :
    (entry last : AuditLog) (f zipped : Option File) (lines : List AuditLog)
    → f ≡ some (plain lines)
    → FoundIn entry f zipped
    → FoundIn entry (some (plain (lines ++ last ∷ []))) zipped
add_line-FoundIn entry last (some (plain old)) zipped lines e found =
    let same : old ≡ lines = cc in Has-append entry last lines (subst (λ t. Has entry t) same found)
add_line-FoundIn entry last (some (packed old)) zipped lines e found = absurd found
add_line-FoundIn entry last (some partial) zipped lines e found = absurd found
add_line-FoundIn entry last none zipped lines e found = cc

-- a compressed file that holds the lines, once the plain one is gone
packed-FoundIn :
    (entry : AuditLog) (f : File) (zipped : Option File)
    → FoundIn entry (some f) zipped
    → FoundIn entry none (some (packed (lines_of f)))
packed-FoundIn entry (plain lines) zipped found = found
packed-FoundIn entry (packed lines) zipped found = absurd found
packed-FoundIn entry partial zipped found = absurd found

-- the compressed file does not matter while the plain one is there
other_zipped-FoundIn :
    (entry : AuditLog) (f : File) (zipped other : Option File)
    → FoundIn entry (some f) zipped
    → FoundIn entry (some f) other
other_zipped-FoundIn entry (plain lines) zipped other found = found
other_zipped-FoundIn entry (packed lines) zipped other found = absurd found
other_zipped-FoundIn entry partial zipped other found = absurd found

-- What is found depends on the two files of the day alone.
pub Found-subst :
    (dir_path : Text) (after : Dict File) (entry : AuditLog) (d : Text) (f zipped : Option File)
    → get after (path_of dir_path d) ≡ f
    → get after (gz (path_of dir_path d)) ≡ zipped
    → FoundIn entry f zipped
    → Found dir_path after (d, entry)
Found-subst dir_path after entry d f zipped e z found =
    subst (λ g. FoundIn entry g (get after (gz (path_of dir_path d)))) (sym e)
      (subst (λ g. FoundIn entry f g) (sym z) found)

-- one day or two
day-cases : (day d : Text) → (day ≡ d) ⊎ (day ≢ d)
day-cases day d = elim (Bool-cases (text_eq day d)) [
  | inl equal ↦ inl (ground (arith, text_eq_iff day d))
  | inr other ↦ inr (ground (arith, text_eq_iff day d))
]

module _ (dir_path : Text) (files : Dict File) (day d : Text) (entry : AuditLog) where
  -- a write to another day's file
  pub put-Found_ne :
      (f : File)
      → day ≢ d
      → Found dir_path files (d, entry)
      → Found dir_path (put files (path_of dir_path day) f) (d, entry)
  put-Found_ne f ne found =
      Found-subst dir_path (put files (path_of dir_path day) f) entry d _ _
        (get-put_ne files _ f _ (λ e. ne (path_of-injective dir_path day d e)))
        (get-put_ne files _ f _ (λ e. gz-ne-path_of dir_path d day (sym e))) found

  -- one more line in the day's file
  pub put-Found_line :
      (lines : List AuditLog) (last : AuditLog)
      → get files (path_of dir_path day) ≡ some (plain lines)
      → Found dir_path files (d, entry)
      → Found dir_path (put files (path_of dir_path day) (plain (lines ++ last ∷ []))) (d, entry)
  put-Found_line lines last there found = elim (day-cases day d) [
    | inr other ↦ put-Found_ne (plain (lines ++ last ∷ [])) other found
    | inl same ↦
        let written = put files (path_of dir_path day) (plain (lines ++ last ∷ [])) in
        Found-subst dir_path written entry d (some (plain (lines ++ last ∷ []))) _
          (subst (λ k. get written (path_of dir_path k) ≡ some (plain (lines ++ last ∷ []))) same
            (get-put_self files (path_of dir_path day) (plain (lines ++ last ∷ []))))
          (get-put_ne files _ _ _ (λ e. gz-ne-path_of dir_path d day (sym e)))
          (add_line-FoundIn entry last (get files (path_of dir_path d)) _ lines
            (ap (λ k. get files (path_of dir_path k)) (sym same) ∙ there) found)
  ]

  -- a compressed file, written while the plain one is there
  pub put-gz-Found :
      (f zipped : File)
      → get files (path_of dir_path day) ≡ some f
      → Found dir_path files (d, entry)
      → Found dir_path (put files (gz (path_of dir_path day)) zipped) (d, entry)
  put-gz-Found f zipped there found =
      let after = put files (gz (path_of dir_path day)) zipped in
      let plain_kept : get after (path_of dir_path d) ≡ get files (path_of dir_path d) =
        get-put_ne files _ zipped _ (gz-ne-path_of dir_path day d) in
      elim (day-cases day d) [
        | inr other ↦
            Found-subst dir_path after entry d _ _ plain_kept
              (get-put_ne files _ zipped _ (λ e. other (gz-injective dir_path day d e))) found
        | inl same ↦
            let here : get files (path_of dir_path d) ≡ some f =
              ap (λ k. get files (path_of dir_path k)) (sym same) ∙ there in
            Found-subst dir_path after entry d (some f) _ (plain_kept ∙ here) refl (
              other_zipped-FoundIn entry f (get files (gz (path_of dir_path d))) _
                (subst (λ g. FoundIn entry g (get files (gz (path_of dir_path d)))) here found))
      ]

  -- the plain file removed, once it has been compressed
  pub remove-Found :
      (f : File)
      → get files (path_of dir_path day) ≡ some f
      → Found dir_path files (d, entry)
      → Found dir_path
          (remove
            (put files (gz (path_of dir_path day)) (packed (lines_of f)))
            (path_of dir_path day))
          (d, entry)
  remove-Found f there found =
      let zipped = put files (gz (path_of dir_path day)) (packed (lines_of f)) in
      let after = remove zipped (path_of dir_path day) in
      let gz_kept : get after (gz (path_of dir_path d)) ≡ get zipped (gz (path_of dir_path d)) =
        get-remove_ne zipped _ _ (λ e. gz-ne-path_of dir_path d day (sym e)) in
      elim (day-cases day d) [
        | inr other ↦
            Found-subst dir_path after entry d _ _
              (get-remove_ne zipped _ _ (λ e. other (path_of-injective dir_path day d e))) gz_kept
              (put-gz-Found f (packed (lines_of f)) there found)
        | inl same ↦
            let here : get files (path_of dir_path d) ≡ some f =
              ap (λ k. get files (path_of dir_path k)) (sym same) ∙ there in
            Found-subst dir_path after entry d none (some (packed (lines_of f)))
              (subst (λ k. get after (path_of dir_path k) ≡ none) same
                (get-remove_self zipped (path_of dir_path day)))
              (gz_kept
                ∙ subst (λ k. get zipped (gz (path_of dir_path k)) ≡ some (packed (lines_of f)))
                    same (get-put_self files (gz (path_of dir_path day)) (packed (lines_of f))))
              (packed-FoundIn entry f (get files (gz (path_of dir_path d)))
                (subst (λ g. FoundIn entry g (get files (gz (path_of dir_path d)))) here found))
      ]

-- The four outcomes of a compression: nothing, an unfinished file, a finished one beside the plain
-- one, and a finished one in its place.
gzip_file-cases :
    (P : Dict File → Type 0) (g : GzipEnv) (src : Text) (files : Dict File)
    → P files
    → ((f : File)
        → get files src ≡ some f
        → P (put files (gz src) partial)
          × P (put files (gz src) (packed (lines_of f)))
          × P (remove (put files (gz src) (packed (lines_of f))) src))
    → P (gzip_file g src files)
unfolding gzip_file gzip_opened
gzip_file-cases P g src files same changed = by_opened (get files src) refl
  where
    if-elim : (b : Bool) (x y : Dict File) → P x → P y → P (if b then x else y)
    if-elim true x y px py = px
    if-elim false x y px py = py

    by_opened :
        (o : Option File)
        → get files src ≡ o
        → P (
            if has_suffix src (codes ".gz")
            then files
            else if not g.opens
            then files
            else elim o [ none ↦ files | some f ↦ gzip_opened g src f files ])
    by_opened none e = if-elim _ _ _ same (if-elim _ _ _ same same)
    by_opened (some f) e =
        let (unfinished, beside, instead) = changed f e in
        if-elim (has_suffix src (codes ".gz")) _ _ same (
          if-elim (not g.opens) _ _ same (
            if-elim (not g.creates) _ _ same (
              if-elim (not g.copies) _ _ unfinished
                (if-elim (not g.closes) _ _ unfinished (if-elim g.removes _ _ instead beside)))))

module _ (dir_path : Text) (files : Dict File) (g : GzipEnv) (day d : Text) where
  -- A compression, whatever fails in it, leaves every entry where it is found.
  pub gzip_file-Found :
      (entry : AuditLog)
      → Found dir_path files (d, entry)
      → Found dir_path (gzip_file g (path_of dir_path day) files) (d, entry)
  gzip_file-Found entry found =
      gzip_file-cases (λ fs. Found dir_path fs (d, entry)) g (path_of dir_path day) files found
        (λ f e. (
          put-gz-Found dir_path files day d entry f partial e found,
          put-gz-Found dir_path files day d entry f (packed (lines_of f)) e found,
          remove-Found dir_path files day d entry f e found,
        ))

  -- It leaves the files of the other days alone.
  pub get-gzip_file_ne :
      day ≢ d
      → get (gzip_file g (path_of dir_path day) files) (path_of dir_path d)
        ≡ get files (path_of dir_path d)
  get-gzip_file_ne other =
      let kept : (f : File)
          → get (put files (gz (path_of dir_path day)) f) (path_of dir_path d)
            ≡ get files (path_of dir_path d) =
        λ f. get-put_ne files _ f _ (gz-ne-path_of dir_path day d) in
      gzip_file-cases (λ fs. get fs (path_of dir_path d) ≡ get files (path_of dir_path d)) g
        (path_of dir_path day) files refl
        (λ f e. (
          kept partial,
          kept (packed (lines_of f)),
          get-remove_ne _ _ _ (λ same. other (path_of-injective dir_path day d same))
              ∙ kept (packed (lines_of f)),
        ))

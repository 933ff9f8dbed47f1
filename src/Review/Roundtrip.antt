-- ===== src/Review/Roundtrip.antt =====
-- A plan that `persist` of review.rs wrote is the one that `load` returns.
use Prim.Native.Char.{Char, code}
use Prim.Native.String.append.{cons}
use Prim.Native.String.{◌++◌ as append}
use text.Mathlib.TextLemmas.{append_cancel_left}
use connector_supabase.Common.{
  ℕ, true, false, not, Option, none, some, String, ◌≡◌, inl, inr, refl, sym, subst, ◌∙◌, ap, arith,
  Bytes, Result, ok, err, ok-injective, map_err, str_eq, eq_iff, eq_refl, Bool-cases, if_keeps,
}
use connector_supabase.Common.Maps
use connector_supabase.External.{External}
use connector_supabase.Plan.{ExecutablePlan}
use connector_supabase.Plan.Digest.{verify_digest}
use connector_supabase.Review.{
  ReviewArtifacts, ReviewError, json, digest, Disk, File, Write, proceed, plain, paths, write_with,
  atomic_write, write_all, persist, load,
}

-- The second code point of a text.
abbrev first_code : String → ℕ
first_code String.[] = 0
first_code (String.◌∷◌ c s) = code c

abbrev second_code : String → ℕ
second_code String.[] = 0
second_code (String.◌∷◌ c s) = first_code s

cons-append : (c : Char) (s t : String) → append (String.◌∷◌ c s) t ≡ String.◌∷◌ c (append s t)
cons-append c s t = λ i. cons c s t i

second_code-append :
    (c d : Char) (s t : String) → second_code (append (String.◌∷◌ c (String.◌∷◌ d s)) t) ≡ code d
second_code-append c d s t =
    ap second_code (cons-append c (String.◌∷◌ d s) t) ∙ ap first_code (cons-append d s t)

different : (x y : String) → append "/plans/" x ≡ append "/reviews/" y → ⊥
different x y e = omega (
  arith,
  sym (second_code-append "/" "p" "lans/" x)
      ∙ ap second_code e
      ∙ second_code-append "/" "r" "eviews/" y,
)

apart :
    (dir x y : String)
    → str_eq (append dir (append "/plans/" x)) (append dir (append "/reviews/" y)) ≡ false
apart dir x y =
    elim (Bool-cases
      (str_eq (append dir (append "/plans/" x)) (append dir (append "/reviews/" y)))) [
        | inl e ↦ elim (different x y (append_cancel_left dir _ _ ((eq_iff _ _).0 e))) [ ]
        | inr e ↦ e
      ]

module _ (disk : Disk) where
  write_with-ok :
      (w s : Option String) (path : String) (bytes : Bytes) (files : File) {u : Unit}
      → (write_with disk w s path bytes files).0 ≡ ok u
      → (write_with disk w s path bytes files).1 ≡ Maps.insert path bytes files
  write_with-ok none s path bytes files h = refl
  write_with-ok (some error) s path bytes files h = cc

  atomic_write-ok :
      (path : String) (bytes : Bytes) (files : File) {u : Unit}
      → (atomic_write disk path bytes files).0 ≡ ok u
      → (atomic_write disk path bytes files).1 ≡ Maps.insert path bytes files
  unfolding atomic_write
  atomic_write-ok path bytes files h = write_with-ok _ _ path bytes files h

  module _ (env : External) (dir : String) (plan : ExecutablePlan) where
    -- The private plan is in the files.
    abbrev Stored : Result ReviewArtifacts ReviewError × File → Type 0
    Stored after =
        (artifacts : ReviewArtifacts)
        → after.0 ≡ ok artifacts
        → (artifacts.plan_path ≡ (paths dir plan).plan_path)
          × ((bytes : Bytes) × ((disk.plan_bytes plan ≡ ok bytes)
                × (Maps.get (paths dir plan).plan_path after.1 ≡ some bytes)))

    -- A write of a review view leaves the private plan in its place.
    get_elsewhere :
        (rest path : String) (bytes kept : Bytes) (files : File) {u : Unit}
        → path ≡ append dir (append "/reviews/" rest)
        → (atomic_write disk path bytes files).0 ≡ ok u
        → Maps.get (paths dir plan).plan_path files ≡ some kept
        → Maps.get (paths dir plan).plan_path (atomic_write disk path bytes files).1 ≡ some kept
    get_elsewhere rest path bytes kept files p w g =
        rw (atomic_write-ok path bytes files w)
          (rw (Maps.get-insert path (paths dir plan).plan_path bytes files, p, apart dir _ rest) g)

    get_written :
        (path : String) (bytes : Bytes) (files : File) {u : Unit}
        → (atomic_write disk path bytes files).0 ≡ ok u
        → Maps.get path (atomic_write disk path bytes files).1 ≡ some bytes
    get_written path bytes files w =
        rw (atomic_write-ok path bytes files w)
          (rw (Maps.get-insert path path bytes files, eq_refl path) refl)

    proceed-Stored :
        {A : Type 0} (f : A → Write ReviewArtifacts) (r : Result A ReviewError × File)
        → ((a : A) → r.0 ≡ ok a → Stored (f a r.1))
        → Stored (proceed f r)
    unfolding proceed
    proceed-Stored f (ok a, files) k = k a refl
    proceed-Stored f (err e, files) k = λ artifacts h. cc

    map_err-ok :
        (r : Result Bytes String) {bytes : Bytes} → map_err json r ≡ ok bytes → r ≡ ok bytes
    map_err-ok (ok b) h = ap (λ (x : Bytes). ok x) (ok-injective h)
    map_err-ok (err e) h = cc

    write_all-Stored : (files : File) → Stored (write_all disk env dir plan files)
    write_all-Stored files = proceed-Stored _ _ (λ _ _. proceed-Stored _ _ (λ _ _.
        proceed-Stored _ _ (λ bytes encoded. proceed-Stored _ _ (λ _ first.
          proceed-Stored _ _ (λ projected _. proceed-Stored _ _ (λ _ second.
            proceed-Stored _ _ (λ _ third artifacts h. (
              ap (λ (a : ReviewArtifacts). a.plan_path) (sym (ok-injective h)),
              (
                bytes,
                (
                  map_err-ok (disk.plan_bytes plan) encoded,
                  get_elsewhere _ _ _ bytes _ refl third
                      (get_elsewhere _ _ _ bytes _ refl second (get_written _ bytes _ first)),
                ),
              ),
            ))))))))

    persist-Stored : (files : File) → Stored (persist disk env dir plan files)
    unfolding persist
    persist-Stored files =
        if_keeps {A = Write ReviewArtifacts} (λ m. Stored (m files)) (not (verify_digest env plan))
          (plain (err digest)) (write_all disk env dir plan) (λ _ artifacts h. cc)
          (λ _. write_all-Stored files)

    persist-verified :
        (files : File) {artifacts : ReviewArtifacts}
        → (persist disk env dir plan files).0 ≡ ok artifacts
        → verify_digest env plan ≡ true
    unfolding persist
    persist-verified files h = elim (Bool-cases (verify_digest env plan)) [
      | inl v ↦ v
      | inr v ↦ cc (rw v at h)
    ]

    load_found :
        (path : String) (files : File) (bytes : Bytes)
        → disk.read_error files path ≡ none
        → Maps.get path files ≡ some bytes
        → disk.parse_plan bytes ≡ ok plan
        → verify_digest env plan ≡ true
        → load disk env path files ≡ ok plan
    unfolding load
    load_found path files bytes r g p v = rw (r, g, p, v) refl

    -- Where the JSON of the plan can be read back and the file can be read, what `load` returns at
    -- the path that a successful `persist` answers is the very plan that was persisted; the two
    -- review views, which are written after it, do not replace it.
    pub load-persist :
        (files : File) (artifacts : ReviewArtifacts)
        → ((bytes : Bytes) → disk.plan_bytes plan ≡ ok bytes → disk.parse_plan bytes ≡ ok plan)
        → (persist disk env dir plan files).0 ≡ ok artifacts
        → disk.read_error (persist disk env dir plan files).1 artifacts.plan_path ≡ none
        → load disk env artifacts.plan_path (persist disk env dir plan files).1 ≡ ok plan
    load-persist files artifacts parses h r =
        let (same, (bytes, (encoded, found))) = persist-Stored files artifacts h in
        load_found artifacts.plan_path _ bytes r
          (subst (λ p. Maps.get p (persist disk env dir plan files).1 ≡ some bytes) (sym same)
            found)
          (parses bytes encoded) (persist-verified files h)

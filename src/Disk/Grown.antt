-- ===== src/Disk/Grown.antt =====
-- Actions that add entries of the owner to the disk and leave every entry as it was.
use nexus_client.Prelude.{
  ◌≡◌, refl, subst, Bool-cases, ◌⊎◌, inl, inr, Option, none, some, List, [], ◌∷◌, String, ◌==◌,
  eq_iff, lookup, Result, ok, err,
}
use nexus_client.Disk.{
  Entry, file, directory, Disk, Host, Io, IoError, then_with, ◌>>=◌, pure, lift, mapped, failing,
  exists, read, read_to_string, made, make_dirs, done_or, create_dir_all,
}

-- A file of mode 0o600, or a directory.
abbrev pub IsPrivate : Entry → Type 0
IsPrivate (file bytes mode) = mode ≡ 384
IsPrivate directory = Unit

pub record Grown (d d' : Disk) : Type 0 where
  pub keeps : (p : String) (e : Entry) → lookup p d ≡ some e → lookup p d' ≡ some e
  pub added : (p : String) (e : Entry) → lookup p d' ≡ some e → (lookup p d ≡ some e) ⊎ IsPrivate e

pub Grown-refl : {d : Disk} → Grown d d
Grown-refl = record { keeps = λ p e h. h; added = λ p e h. inl h }

or_added :
    {d d' : Disk} (p : String) (e : Entry)
    → Grown d d'
    → (lookup p d' ≡ some e) ⊎ IsPrivate e
    → (lookup p d ≡ some e) ⊎ IsPrivate e
or_added p e g (inl h) = g.added p e h
or_added p e g (inr k) = inr k

pub Grown-trans : {d d' d'' : Disk} → Grown d d' → Grown d' d'' → Grown d d''
Grown-trans g k = record {
  keeps = λ p e h. k.keeps p e (g.keeps p e h);
  added = λ p e h. or_added p e g (k.added p e h);
}

kept_behind :
    (q : String) (x : Entry) (d : Disk) (p : String) (e : Entry)
    → lookup q d ≡ none
    → lookup p d ≡ some e
    → lookup p ((q, x) ∷ d) ≡ some e
kept_behind q x d p e free h = elim (Bool-cases (q == p)) [
  | inl same ↦
      let eq : q ≡ p = (eq_iff q p).0 same in
      let clash : lookup p d ≡ none = subst (λ r. lookup r d ≡ none) eq free in cc
  | inr other ↦ rw other h
]

added_before :
    (q : String) (x : Entry) (d : Disk) (p : String) (e : Entry)
    → IsPrivate x
    → lookup p ((q, x) ∷ d) ≡ some e
    → (lookup p d ≡ some e) ⊎ IsPrivate e
added_before q x d p e k h = elim (Bool-cases (q == p)) [
  | inl same ↦ let eq : x ≡ e = cc in inr (subst IsPrivate eq k)
  | inr other ↦ inl cc
]

pub Grown-add :
    (q : String) (x : Entry) (d : Disk) → lookup q d ≡ none → IsPrivate x → Grown d ((q, x) ∷ d)
Grown-add q x d free k = record {
  keeps = λ p e h. kept_behind q x d p e free h;
  added = λ p e h. added_before q x d p e k h;
}

made-Grown : (o : Option Entry) (p : String) (d : Disk) → lookup p d ≡ o → Grown d (made o p d)
made-Grown none p d h = Grown-add p directory d h tt
made-Grown (some e) p d h = Grown-refl

make_dirs-Grown : (ps : List String) (d : Disk) → Grown d (make_dirs ps d)
make_dirs-Grown [] d = Grown-refl
make_dirs-Grown (p ∷ ps) d =
    Grown-trans (made-Grown (lookup p d) p d refl) (make_dirs-Grown ps (made (lookup p d) p d))

pub record Grows {A E : Type 0} (m : Io A E) : Type 0 where
  pub at : (d : Disk) → Grown d (m d).1

then_with-Grown :
    {A B E : Type 0} (d : Disk) (r : Result A E × Disk) (f : A → Io B E)
    → Grown d r.1
    → ((a : A) → Grows (f a))
    → Grown d (then_with r f).1
then_with-Grown d (ok a, d') f g k = Grown-trans g ((k a).at d')
then_with-Grown d (err e, d') f g k = g

pub Grows-bind :
    {A B E : Type 0} {m : Io A E} {f : A → Io B E}
    → Grows m
    → ((a : A) → Grows (f a))
    → Grows (m >>= f)
unfolding ◌>>=◌
Grows-bind {m} {f} g k = record { at = λ d. then_with-Grown d (m d) f (g.at d) k }

pub Grows-pure : {A E : Type 0} (a : A) → Grows {A = A} {E = E} (pure a)
unfolding pure
Grows-pure a = record { at = λ d. Grown-refl }

pub Grows-lift : {A E : Type 0} (r : Result A E) → Grows (lift r)
unfolding lift
Grows-lift r = record { at = λ d. Grown-refl }

mapped-Grown :
    {A E F : Type 0} (f : E → F) (d : Disk) (r : Result A E × Disk)
    → Grown d r.1
    → Grown d (mapped f r).1
mapped-Grown f d (ok a, d') g = g
mapped-Grown f d (err e, d') g = g

pub Grows-failing : {A E F : Type 0} (f : E → F) {m : Io A E} → Grows m → Grows (failing f m)
unfolding failing
Grows-failing f {m} g = record { at = λ d. mapped-Grown f d (m d) (g.at d) }

done_or-Grown : (o : Option IoError) (d d' : Disk) → Grown d d' → Grown d (done_or o d').1
done_or-Grown none d d' g = g
done_or-Grown (some e) d d' g = g

module _ (host : Host) where
  pub Grows-exists : {E : Type 0} (path : String) → Grows {E = E} (exists host path)
  unfolding exists
  Grows-exists path = record { at = λ d. Grown-refl }

  pub Grows-read : (path : String) → Grows (read host path)
  unfolding read
  Grows-read path = record { at = λ d. Grown-refl }

  pub Grows-read_to_string : (path : String) → Grows (read_to_string host path)
  unfolding read_to_string
  Grows-read_to_string path = Grows-bind (Grows-read path) λ bytes. Grows-lift _

  pub Grows-create_dir_all : (path : String) → Grows (create_dir_all host path)
  unfolding create_dir_all
  Grows-create_dir_all path = record {
    at = λ d. done_or-Grown (host.dirs_fail d path) d _ (make_dirs-Grown (host.new_dirs d path) d);
  }

-- ===== src/Exec/Laws.antt =====
-- How sequences of operations run, one operation at a time.
use huron_fs.Prelude.{◌≡◌, refl, Option, some, Bool, true, false, if◌then◌else◌}
use huron_fs.Exec.{Exec, Exception, returns, throws, undefined, ◌>>=◌, ◌>>◌, catch, deref, at}

pub run-bind :
    {S A B : Type 0} (m : Exec S A) (f : A → Exec S B) (a : A) (s t : S)
    → m s ≡ returns a t
    → (m >>= f) s ≡ f a t
run-bind m f a s t e = rw (◌>>=◌, e) refl

pub run-then :
    {S A B : Type 0} (m : Exec S A) (k : Exec S B) (a : A) (s t : S)
    → m s ≡ returns a t
    → (m >> k) s ≡ k t
run-then m k a s t e = rw (◌>>◌, e) refl

pub run-catch_throws :
    {S A : Type 0} (m : Exec S A) (handler : Exception → Exec S A) (e : Exception) (s t : S)
    → m s ≡ throws e t
    → catch m handler s ≡ handler e t
run-catch_throws m handler e s t h = rw (catch, h) refl

pub run-catch_returns :
    {S A : Type 0} (m : Exec S A) (handler : Exception → Exec S A) (a : A) (s t : S)
    → m s ≡ returns a t
    → catch m handler s ≡ returns a t
run-catch_returns m handler a s t h = rw (catch, h) refl

pub run-deref : {S A : Type 0} (o : Option A) (a : A) (s : S) → o ≡ some a → deref o s ≡ returns a s
run-deref o a s e = rw e refl

pub run-at : {S A : Type 0} (o : Option A) (a : A) (s : S) → o ≡ some a → at o s ≡ returns a s
run-at o a s e = rw e refl

pub run-bind_throws :
    {S A B : Type 0} (m : Exec S A) (f : A → Exec S B) (e : Exception) (s t : S)
    → m s ≡ throws e t
    → (m >>= f) s ≡ throws e t
run-bind_throws m f e s t h = rw (◌>>=◌, h) refl

pub run-then_throws :
    {S A B : Type 0} (m : Exec S A) (k : Exec S B) (e : Exception) (s t : S)
    → m s ≡ throws e t
    → (m >> k) s ≡ throws e t
run-then_throws m k e s t h = rw (◌>>◌, h) refl

pub run-bind_undefined :
    {S A B : Type 0} (m : Exec S A) (f : A → Exec S B) (s : S)
    → m s ≡ undefined
    → (m >>= f) s ≡ undefined
run-bind_undefined m f s h = rw (◌>>=◌, h) refl

pub run-then_undefined :
    {S A B : Type 0} (m : Exec S A) (k : Exec S B) (s : S)
    → m s ≡ undefined
    → (m >> k) s ≡ undefined
run-then_undefined m k s h = rw (◌>>◌, h) refl

pub run-if_true :
    {S A : Type 0} (c : Bool) (m k : Exec S A) (s : S) → c ≡ true → (if c then m else k) s ≡ m s
run-if_true c m k s h = rw h refl

pub run-if_false :
    {S A : Type 0} (c : Bool) (m k : Exec S A) (s : S) → c ≡ false → (if c then m else k) s ≡ k s
run-if_false c m k s h = rw h refl

-- ===== src/S3/Actions.antt =====
-- The monad of the handlers in local-storage/src/s3/handlers.rs: a step of the world that ends with
-- an S3 error or a value, and the storage layer's steps in it.
use rust_local_storage_cdn.Prelude.{Result, ok, err}
use rust_local_storage_cdn.Errors.{StorageError}
use rust_local_storage_cdn.World.{World}
use rust_local_storage_cdn.World.Actions.{Action}
use rust_local_storage_cdn.S3.Errors.{S3Error, S3Result, from_storage}

abbrev pub S3Action : Type 0 → Type 0
S3Action A = World → S3Result A × World

abbrev pub pure : {A : Type 0} → A → S3Action A
pure a w = (ok a, w)

abbrev pub raise : {A : Type 0} → S3Error → S3Action A
raise e w = (err e, w)

abbrev pub lift : {A : Type 0} → S3Result A → S3Action A
lift r w = (r, w)

abbrev pub continue : {A B : Type 0} → S3Result A → (A → S3Action B) → S3Action B
continue (ok a) f w = f a w
continue (err e) f w = (err e, w)

infixl 10 ◌>>=◌ ◌>>◌
abbrev pub ◌>>=◌ : {A B : Type 0} → S3Action A → (A → S3Action B) → S3Action B
◌>>=◌ m f w = let (r, w') = m w in continue r f w'

abbrev pub ◌>>◌ : {B : Type 0} → S3Action (Unit {0}) → S3Action B → S3Action B
m >> k = m >>= λ _. k

abbrev pub gets : {A : Type 0} → (World → A) → S3Action A
gets f w = (ok (f w), w)

-- `storage.call(..).await.map_err(S3Error::from)?`
abbrev pub converted : {A : Type 0} → Action A → S3Action A
converted m w =
    let (r, w') = m w in elim r [ ok a ↦ (ok a, w') | err e ↦ (err (from_storage e), w') ]

-- A call of the storage layer whose outcome the handler matches on.
abbrev pub outcome : {A : Type 0} → Action A → S3Action (Result StorageError A)
outcome m w = let (r, w') = m w in (ok r, w')

-- ===== src/S3/Errors.antt =====
-- local-storage/src/s3/error.rs: the error type of the S3-compatible API, and how a storage error
-- becomes one.
use rust_local_storage_cdn.Prelude.{ℕ, Text, str, ◌++◌, [], Result}
use rust_local_storage_cdn.Errors.{StorageError, display}

pub record S3Error : Type 0 where
  pub status : ℕ
  pub code : Text
  pub message : Text
  pub resource : Text

abbrev pub S3Result : Type 0 → Type 0
S3Result A = Result S3Error A

unfoldable pub no_such_key : Text → Text → S3Error
no_such_key bucket key = record {
  status = 404;
  code = str "NoSuchKey";
  message = str "The specified key does not exist";
  resource = str "/" ++ (bucket ++ (str "/" ++ key));
}

unfoldable pub access_denied : Text → S3Error
access_denied message = record {
  status = 403;
  code = str "AccessDenied";
  message = message;
  resource = [];
}

unfoldable pub signature_does_not_match : S3Error
signature_does_not_match = record {
  status = 403;
  code = str "SignatureDoesNotMatch";
  message = str "The request signature we calculated does not match the signature you provided";
  resource = [];
}

unfoldable pub invalid_request : Text → S3Error
invalid_request message = record {
  status = 400;
  code = str "InvalidRequest";
  message = message;
  resource = [];
}

unfoldable pub internal : Text → S3Error
internal message = record {
  status = 500;
  code = str "InternalError";
  message = message;
  resource = [];
}

-- `impl From<StorageError> for S3Error`
unfoldable pub from_storage : StorageError → S3Error
unfolding no_such_key invalid_request internal
from_storage (StorageError.not_found bucket key) = no_such_key bucket key
from_storage (StorageError.invalid_bucket msg) = record {
  status = 404;
  code = str "NoSuchBucket";
  message = msg;
  resource = msg;
}
from_storage (StorageError.already_exists bucket key) = record {
  status = 409;
  code = str "KeyAlreadyExists";
  message = str "Object already exists: " ++ (bucket ++ (str "/" ++ key));
  resource = str "/" ++ (bucket ++ (str "/" ++ key));
}
from_storage (StorageError.invalid_key msg) = invalid_request msg
from_storage (StorageError.validation msg) = invalid_request msg
from_storage (StorageError.bad_request msg) = invalid_request msg
from_storage (StorageError.payload_too_large msg) = record {
  status = 413;
  code = str "EntityTooLarge";
  message = msg;
  resource = [];
}
from_storage other = internal (display other)

-- ===== src/S3/Xml.antt =====
-- local-storage/src/s3/xml.rs: the bodies of the S3-compatible API. The serializer and the parser of
-- the quick_xml crate are parameters.
use rust_local_storage_cdn.Prelude.{ℕ, Text, str, Bool, List, ◌++◌, ℤ, Result, ok, err}

abbrev pub xmlns : Text
xmlns = str "http://s3.amazonaws.com/doc/2006-03-01/"

pub record Owner : Type 0 where
  pub id : Text
  pub display_name : Text

pub record BucketEntry : Type 0 where
  pub name : Text
  pub creation_date : Text

pub record Buckets : Type 0 where
  pub bucket : List BucketEntry

pub record ListAllMyBucketsResult : Type 0 where
  pub xmlns : Text
  pub owner : Owner
  pub buckets : Buckets

pub record Content : Type 0 where
  pub key : Text
  pub last_modified : Text
  pub etag : Text
  pub size : ℕ
  pub storage_class : Text

pub record ListBucketResult : Type 0 where
  pub xmlns : Text
  pub name : Text
  pub prefix : Text
  pub key_count : ℕ
  pub max_keys : ℤ
  pub is_truncated : Bool
  pub contents : List Content

pub record ObjectIdentifier : Type 0 where
  pub key : Text

pub record DeleteRequest : Type 0 where
  pub object : List ObjectIdentifier

pub record DeletedEntry : Type 0 where
  pub key : Text

pub record DeleteErrorEntry : Type 0 where
  pub key : Text
  pub code : Text
  pub message : Text

pub record DeleteResult : Type 0 where
  pub xmlns : Text
  pub deleted : List DeletedEntry
  pub error : List DeleteErrorEntry

pub record CopyObjectResult : Type 0 where
  pub xmlns : Text
  pub etag : Text
  pub last_modified : Text

-- What `serde` serializes: one of the four bodies.
pub data Document : Type 0 where
  all_my_buckets : ListAllMyBucketsResult → Document
  list_bucket : ListBucketResult → Document
  delete_result : DeleteResult → Document
  copy_object : CopyObjectResult → Document

-- quick_xml, the date format of chrono, and what axum and http do with a header value.
pub record Web : Type 0 where
  pub to_string : Document → Result Text Text
  pub from_str : Text → Result Text DeleteRequest
  pub to_rfc3339 : ℕ → Text
  pub header_value : Text → Bool
  pub header_error : Text → Text

abbrev or_empty : Result Text Text → Text
or_empty (ok body) = body
or_empty (err e) = str ""

unfoldable pub to_xml : Web → Document → Text
to_xml web value =
    str "<?xml version=\"1.0\" encoding=\"UTF-8\"?>\n" ++ or_empty (web.to_string value)

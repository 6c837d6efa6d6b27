-- ===== src/Origin/Types.antt =====
-- The types of internal/repository/origin.go, with the part of `url.URL` and `http.Response` that it reads.
use unlock_catalog_publisher.Base.{ℕ, Bool, Bytes, Option}
use unlock_catalog_publisher.Release.Types.{ReleaseError}

pub record Url : Type 0 where
  pub scheme : Bytes
  pub host : Bytes
  pub has_user : Bool
  pub opaque_part : Bytes
  pub raw_query : Bytes
  pub fragment : Bytes
  pub raw_path : Bytes
  pub path : Bytes

-- `request_url` is `response.Request.URL.String()`, if there is a request. A negative content length is
-- `none`. `body` is what the whole body holds, or `none` when it cannot be read.
pub record Response : Type 0 where
  pub request_url : Option Bytes
  pub status_code : ℕ
  pub content_encoding : Bytes
  pub content_length : Option ℕ
  pub body : Option Bytes

-- What `Lstat` and `ReadFile` tell of the `README.md` in the release prefix.
pub record Sentinel : Type 0 where
  pub is_regular : Bool
  pub mode : ℕ
  pub content : Bytes

pub record OriginReport : Type 0 where
  pub base_url : Bytes
  pub source_count : ℕ
  pub file_count : ℕ
  pub file_bytes : ℕ

pub data OriginError : Type 0 where
  context_required base_not_parsed base_not_anonymous path_not_canonical base_not_canonical :
      OriginError
  root_invalid tree_unreadable : ReleaseError → OriginError
  sentinel_missing sentinel_invalid unsafe_origin_path fetch_failed changed_url : OriginError
  status_returned encoding_returned content_length_differs outside_limits read_failed : OriginError
  content_differs : OriginError

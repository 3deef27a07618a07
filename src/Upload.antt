-- ===== src/Upload.antt =====
-- The upload providers (upload/provider.py, upload/s3_provider.py, upload/dummy_provider.py) and
-- ConfigUtils.create_upload_provider (config/config_utils.py). boto3 and the files are parameters.
use Prim.Native.String.{◌++◌}
use qsp_protocol_node.Prelude.{
  String, Bool, true, false, not, ◌&&◌, Option, none, some, if◌then◌else◌, str_eq, Result, ok,
  raise, other, ◌>>=◌,
}
use qsp_protocol_node.Config.Values.{Value, text, mapping, no_entries, entry}
use qsp_protocol_node.Config.Client.{is_text}

pub record S3Provider : Type 0 where
  pub account : String
  pub bucket_name : Option String
  pub contract_bucket_name : Option String

pub data UploadProvider : Type 0 where
  s3 : S3Provider → UploadProvider
  dummy : UploadProvider

-- The keys 'success' and 'url' of a response.
pub record Response : Type 0 where
  pub success : Bool
  pub url : Option String

-- `put_object` of boto3, by bucket, key and body.
abbrev pub Put : Type 0
Put = String → String → String → Result (Unit {0})

abbrev put_response : Result (Unit {0}) → String → Response
put_response (ok done) url = record { success = true; url = some url }
put_response (raise e) url = record { success = false; url = none }

-- S3Provider.upload_report: boto3 refuses a bucket that is None.
unfoldable pub s3_upload_report :
    Put → (String → String) → S3Provider → String → Option String → Response
s3_upload_report put_object digest p report_as_string audit_report_hash =
    let report_hash : String = elim audit_report_hash [
      | none ↦ digest report_as_string
      | some hash ↦ hash
    ] in
    let report_file_name = p.account ++ "/" ++ report_hash ++ ".json" in
    elim p.bucket_name [
      | none ↦ record { success = false; url = none }
      | some bucket ↦
          put_response (put_object bucket report_file_name report_as_string)
            ("https://s3.amazonaws.com/" ++ bucket ++ "/" ++ report_file_name)
    ]

-- S3Provider.upload_contract, for a request whose number is written as `request_id`.
unfoldable pub s3_upload_contract : Put → S3Provider → String → String → String → Response
s3_upload_contract put_object p request_id contract_body file_name = elim p.contract_bucket_name [
  | none ↦ record { success = false; url = none }
  | some bucket ↦
      let contract_filname = p.account ++ "/" ++ request_id ++ "/" ++ file_name in
      put_response (put_object bucket contract_filname contract_body)
        ("https://s3.amazonaws.com/" ++ bucket ++ "/" ++ contract_filname)
]

-- DummyProvider: `tmp` is the name of the temporary file that is written, or what that raises.
unfoldable pub dummy_upload_report : Result String → Result Response
dummy_upload_report tmp = do
  name ← tmp
  ok (record { success = true; url = some ("file://" ++ name) })

unfoldable pub dummy_upload_contract : Response
dummy_upload_contract = record {
  success = true;
  url = some "Not available. Full report was not uploaded";
}

-- The value of an argument of S3Provider: a bucket, or None.
abbrev bucket_of : Value → Option String
bucket_of (text s) = some s
bucket_of _ = none

-- `S3Provider(account, **args)`: the two arguments by name, which are texts or None, and no other.
unfoldable pub s3_provider : String → Value → Result UploadProvider
s3_provider account (mapping (entry k v (entry k' v' no_entries))) =
    if str_eq k "bucket_name" && str_eq k' "contract_bucket_name"
    then ok (
        s3 (record {
          account = account;
          bucket_name = bucket_of v;
          contract_bucket_name = bucket_of v';
        }))
    else if str_eq k' "bucket_name" && str_eq k "contract_bucket_name"
    then ok (
        s3 (record {
          account = account;
          bucket_name = bucket_of v';
          contract_bucket_name = bucket_of v;
        }))
    else raise (other "got an unexpected keyword argument")
s3_provider account _ = raise (other "__init__() missing arguments")

unfoldable pub create_upload_provider : Value → Value → Value → Bool → Result UploadProvider
unfolding s3_provider
create_upload_provider account upload_provider_name upload_provider_args is_enabled =
    if not is_enabled
    then ok dummy
    else if is_text upload_provider_name "S3Provider"
    then elim account [
      | text address ↦ s3_provider address upload_provider_args
      | _ ↦ raise (other "account is None, the upload will not be possible")
    ]
    else raise (other "Unknown/Unsupported provider")

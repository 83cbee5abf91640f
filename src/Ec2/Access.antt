-- ===== src/Ec2/Access.antt =====
-- `dnslab/providers/ec2.py`: sessions and clients, the caller's address, the image, the security
-- group, the SSM role, and the description of all instances.
use gpt_jupyter_dns.Prelude.{
  ℕ, ◌*◌, String, ◌<>◌, Bool, not, Option, none, some, List, [], ◌∷◌, ◌++◌, ◌==◌, if◌then◌else◌,
}
use gpt_jupyter_dns.Dict.{Dict, insert, merge}
use gpt_jupyter_dns.Result.{
  Result, ok, err, Error, runtime_error, not_configured, foreign, import_error, index_error,
  is_runtime,
}
use gpt_jupyter_dns.Action.{Action, pure, raise, lift, catch, ◌>>=◌, ◌>>◌}
use gpt_jupyter_dns.Value.{str, repr_text}
use gpt_jupyter_dns.Text.{strip, has_substring}
use gpt_jupyter_dns.Model.{ServerSpec}
use gpt_jupyter_dns.Ec2.{resolve_ami_source, sg_ingress_rules, second}
use gpt_jupyter_dns.Ec2.Cloud.{Cloud, Tag, AwsInstance}

abbrev pub tag : String
tag = "dnslab"

abbrev pub checkip_url : String
checkip_url = "https://checkip.amazonaws.com"

-- `_wrap`: what was being done
abbrev pub wrap : String → Error
wrap doing = runtime_error (foreign doing)

-- `_tags_dict`: of two tags with one key the later one counts
unfoldable pub tags_dict : List Tag → Dict String
unfolding merge
tags_dict tags = merge [] tags

-- `xs[0]`
abbrev pub head : {A : Type 0} → List A → Result A
head [] = err index_error
head (x ∷ xs) = ok x

concat : {A : Type 0} → List (List A) → List A
concat [] = []
concat (xs ∷ rest) = xs ++ concat rest

module _ {W : Type 0} (cloud : Cloud W) where
  -- `_boto3`
  unfoldable pub boto3 : Action W (Unit {0})
  boto3 = catch cloud.import_boto3 λ e. elim e [
    | import_error ↦ some (raise (runtime_error (not_configured "boto3")))
    | _ ↦ none
  ]

  unfoldable pub check_region : Option String → Action W (Unit {0})
  check_region none = raise (runtime_error (not_configured "region"))
  check_region (some region) =
      if region == "" then raise (runtime_error (not_configured "region")) else pure tt

  -- `_session`, and a client of it
  unfoldable pub connect : String → Action W (Unit {0})
  unfolding boto3 check_region
  connect service = do boto3; region ← cloud.region_name; check_region region; cloud.client service

  -- `except Exception as e: raise _wrap(e, doing) from e`
  abbrev pub or_wrap : {A : Type 0} → String → Action W A → Action W A
  or_wrap doing m = catch m λ e. some (raise (wrap doing))

  -- the same, unless the exception's text has this word in it, which is passed over
  abbrev pub unless_text : String → String → Action W (Unit {0}) → Action W (Unit {0})
  unless_text word doing m =
      catch m
        λ e. some (if has_substring word (cloud.str_error e) then pure tt else raise (wrap doing))

  unfoldable pub caller_public_ip : ℕ → Action W String
  caller_public_ip timeout = or_wrap "determining the caller's public IP" do
    text ← cloud.fetch checkip_url timeout
    lift (cloud.ip_address (strip text))
    pure (strip text)

  -- the lookup of an image by what `resolve_ami_source` found
  lookup_ami : String × String → Action W String
  unfolding connect
  lookup_ami (kind, value) =
      if kind == "ami"
      then pure value
      else catch (connect "ssm" >>= λ _. cloud.get_parameter value) λ e.
        if is_runtime e
        then none
        else some (raise (wrap ("resolving AMI via SSM parameter " <> repr_text value)))

  -- `_resolve_ami`
  unfoldable pub resolve_ami : ServerSpec → Action W String
  unfolding lookup_ami
  resolve_ami spec = do
    source ← lift (resolve_ami_source (insert "name" (str spec.name) spec.raw))
    lookup_ami source

  abbrev authorize : String → String → Bool → String → Action W (Unit {0})
  authorize cidr sg_id rdp doing =
      unless_text "InvalidPermission.Duplicate" doing
        (cloud.authorize_ingress sg_id (sg_ingress_rules cidr rdp))

  -- `_authorize_current_ip`
  unfoldable pub authorize_current_ip : String → Bool → Action W (Unit {0})
  unfolding caller_public_ip
  authorize_current_ip sg_id rdp = do
    ip ← caller_public_ip 10
    authorize (ip <> "/32") sg_id rdp ("re-authorizing ingress on " <> sg_id)

  abbrev pub ssm_policy : String
  ssm_policy = "arn:aws:iam::aws:policy/AmazonSSMManagedInstanceCore"

  abbrev pub trust : String
  trust =
      "{\"Version\":\"2012-10-17\",\"Statement\":[{\"Effect\":\"Allow\",\"Principal\":{\"Service\":\"ec2.amazonaws.com\"},\"Action\":\"sts:AssumeRole\"}]}"

  -- `_ensure_ssm_profile`, under its default name
  unfoldable pub ensure_ssm_profile : String → Action W (Unit {0})
  unfolding connect
  ensure_ssm_profile name = do
    connect "iam"
    unless_text "EntityAlreadyExists" ("creating IAM role " <> name)
        (do cloud.create_role name trust; cloud.attach_role_policy name ssm_policy)
    unless_text "EntityAlreadyExists" ("creating instance profile " <> name) (do
      cloud.create_instance_profile name
      cloud.add_role_to_instance_profile name name
      cloud.sleep (10 * second))

  -- The group of this name, when it is there already; the calls in the handler are not wrapped.
  existing_sg : String → Error → Action W String
  existing_sg sg_name e =
      if not (has_substring "InvalidGroup.Duplicate" (cloud.str_error e))
      then raise (wrap ("creating security group " <> repr_text sg_name))
      else (do
        groups ← cloud.describe_security_groups sg_name
        group ← lift (head groups)
        pure group.id)

  -- `_ensure_sg`
  unfoldable pub ensure_sg : String → Bool → List Tag → Action W String
  unfolding caller_public_ip existing_sg
  ensure_sg sg_name rdp tags = do
    ip ← caller_public_ip 10
    let cidr = ip <> "/32"
    sg_id ←
        catch
          (cloud.create_security_group sg_name
            ("dnslab session SG (auto-created, scoped to " <> cidr <> ")") tags)
          λ e. some (existing_sg sg_name e)
    authorize cidr sg_id rdp ("authorizing ingress on " <> repr_text sg_name)
    pure sg_id

  -- `_describe`; the client is made outside the `try`
  unfoldable pub describe : List String → Action W (List AwsInstance)
  unfolding connect concat
  describe states = do
    connect "ec2"
    or_wrap "describing dnslab-tagged instances"
        do pages ← cloud.describe_pages states; pure (concat (concat pages))

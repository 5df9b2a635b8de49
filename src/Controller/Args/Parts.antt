-- ===== src/Controller/Args/Parts.antt =====
-- The parts of the line of `docker-machine create`, as docker-machine reads them
-- (pkg/controller/machine.go, aws.go and aws_region.go).
use docker_machine_operator.Base.{
  String, ◌==◌, ◌<>◌, ◌≡◌, refl, false, List, [], ◌∷◌, ◌++◌, All, Bool-cases, inl, inr,
  if◌then◌else◌,
}
use docker_machine_operator.Go.Map.{GoMap, get}
use docker_machine_operator.Go.Text.{is_empty}
use docker_machine_operator.Go.Base64.{encode_to_string}
use docker_machine_operator.Api.Types.{Machine}
use docker_machine_operator.Controller.Region.{ami_ids, get_ami_id_arg}

-- A credential of the secret: Google's is passed as base64, every other one as it is.
abbrev pub credential : String → String → String
credential driver value = if driver == "google" then encode_to_string value else value

-- The file in /tmp for a namespace and a name.
abbrev pub script_file : String → String → String
script_file namespace name =
    "/" <> ("tmp" <> ("/" <> (namespace <> ("-" <> (name <> "-startup.sh")))))

-- A flag with its value, where there is one.
abbrev pub given : String → String → List String
given name value = if is_empty value then [] else name ∷ value ∷ []

-- The flags for the VPC and the subnet that the machine is annotated with, on AWS.
abbrev pub network_args : String → Machine → List String
network_args driver m =
    if driver == "amazonec2"
    then given "--amazonec2-vpc-id" (get "docker-machine-operator/aws-vpc" m.annotations)
      ++ given "--amazonec2-subnet-id" (get "docker-machine-operator/aws-subnet" m.annotations)
    else []

-- The flag for the image of a region, if a table of images has one.
unfoldable pub image_args : String → GoMap → List String
image_args region [] = []
image_args region ((known, image) ∷ images) =
    if known == region then "--amazonec2-ami" ∷ image ∷ [] else image_args region images

given-image_args :
    (region : String) (images : GoMap)
    → All (λ entry. is_empty entry.1 ≡ false) images
    → given "--amazonec2-ami" (get region images) ≡ image_args region images
unfolding image_args
given-image_args region [] h = refl
given-image_args region ((known, image) ∷ images) (e, h) = elim (Bool-cases (known == region)) [
  | inl t ↦ rw (t, e) refl
  | inr f ↦ rw f (given-image_args region images h)
]

-- Every region of the source's table has an image.
images_named : All (λ entry. is_empty entry.1 ≡ false) ami_ids
images_named = (
  refl,
  (
    refl,
    (
      refl,
      (
        refl,
        (
          refl,
          (
            refl,
            (
              refl,
              (
                refl,
                (
                  refl,
                  (
                    refl,
                    (
                      refl,
                      (
                        refl,
                        (
                          refl,
                          (
                            refl,
                            (
                              refl,
                              (
                                refl,
                                (
                                  refl,
                                  (
                                    refl,
                                    (
                                      refl,
                                      (
                                        refl,
                                        (
                                          refl,
                                          (
                                            refl,
                                            (
                                              refl,
                                              (refl, (refl, (refl, (refl, (refl, (refl, tt)))))),
                                            ),
                                          ),
                                        ),
                                      ),
                                    ),
                                  ),
                                ),
                              ),
                            ),
                          ),
                        ),
                      ),
                    ),
                  ),
                ),
              ),
            ),
          ),
        ),
      ),
    ),
  ),
)

-- The image of a machine is that of the region among its parameters.
pub get_ami_id_arg_lem :
    (m : Machine) → get_ami_id_arg m ≡ image_args (get "amazonec2-region" m.spec.parameters) ami_ids
unfolding get_ami_id_arg
get_ami_id_arg_lem m =
    given-image_args (get "amazonec2-region" m.spec.parameters) ami_ids images_named
